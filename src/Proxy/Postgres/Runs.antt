-- ===== src/Proxy/Postgres/Runs.antt =====
-- Sequences of messages of both sides through a session of internal/proxy/postgresql.
use dbbat.Prelude.{ℕ, List, [], ◌∷◌}
use dbbat.Proxy.Postgres.{Moment, Storage, Session}
use dbbat.Proxy.Postgres.Client.{FrontMessage, client_step}
use dbbat.Proxy.Postgres.Server.{BackMessage, server_step}

-- A message of either side, at its moment.
pub data Event : Type 0 where
  from_client : Moment → FrontMessage → Event
  from_server : Moment → BackMessage → Event

module _ (upper_other : ℕ → ℕ) (cfg : Storage) where
  abbrev pub step : Event → Session → Session
  step (from_client t m) s = (client_step upper_other cfg t m s).1
  step (from_server t m) s = server_step cfg t m s

  unfoldable pub run : List Event → Session → Session
  run [] s = s
  run (e ∷ events) s = run events (step e s)
