-- ===== src/Secrets/Stored.antt =====
-- What is stored as a secret is what the workspace is handed out.
use starfire_agent_team.Prelude.{ℕ, String, Option, List, []}
use starfire_agent_team.World.{World}
use starfire_agent_team.WsAuth
use starfire_agent_team.Crypto.{Bytes}
use starfire_agent_team.Secrets.{Secret, Owned, secrets_of, resealed}
use starfire_agent_team.Secrets.Values.{last_of}

-- The row of a key that Values reads last.
row_for : String → String → List Owned → Option Secret
unfolding secrets_of
row_for i k rows = last_of k (secrets_of i (record { secrets = rows; globals = [] }))

abbrev write : ℕ → Bytes → ℕ → Owned → Owned
write now value version r = record r { secret = resealed now value version r.secret }
