-- ===== src/Transaction/Replays.antt =====
-- All transactions of a session, if there is no error.
use proxy_verifier.Base.{true, false, List, [], ◌∷◌, ◌≡◌, ◌⊎◌}
use proxy_verifier.Session.Errata.{Errata, is_ok}
use proxy_verifier.Session.Run.{Run, returned, blocked, unfinished, aborted, out_of_bounds}
use proxy_verifier.Session.Socket.{Session}
use proxy_verifier.Transaction.Looping.{Connecting, set_fd, Turn}
use proxy_verifier.Transaction.Replaying.{Replayed}
use proxy_verifier.Transaction.Running.{Setting, Ended, run_transaction}

-- An open session is kept, and a closed one has a new socket.
pub record IsConnected (c : Connecting) (s s' : Session) : Type 0 where
  pub still_open : s'.is_open ≡ true
  pub kept_or_new : ((s.is_open ≡ true) × (s' ≡ s)) ⊎ ((s.is_open ≡ false) × (s' ≡ set_fd c s))

-- The transactions one behind the other, each on an open session and in time.
pub data Replays : Setting → List Turn → Session → Session → Type 0 where
  all_replayed : {e : Setting} {s : Session} → Replays e [] s s
  replayed :
      {e : Setting} {turn : Turn} {turns : List Turn} {s s1 s2 s' : Session} {errata : Errata}
      → IsConnected turn.connecting s s1
      → turn.late ≡ false
      → run_transaction e turn.txn s1 ≡ returned (errata, s2)
      → Replayed e turn.txn s1 s2
      → Replays e turns s2 s'
      → Replays e (turn ∷ turns) s s'

abbrev pub ReplaysIf : Setting → List Turn → Errata → Session → Run Ended → Type 0
ReplaysIf e turns all s (returned (errata, s')) =
    is_ok errata ≡ true → (is_ok all ≡ true) × Replays e turns s s'
ReplaysIf e turns all s blocked = Unit
ReplaysIf e turns all s unfinished = Unit
ReplaysIf e turns all s aborted = Unit
ReplaysIf e turns all s out_of_bounds = Unit

abbrev NewIf : Connecting → Session → Ended → Type 0
NewIf c s (errata, s') = is_ok errata ≡ true → s' ≡ set_fd c s
