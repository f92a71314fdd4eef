-- ===== src/Transaction/Looping.antt =====
-- `Session::run_transactions` and `Session::do_connect`. The clock is not modelled: of a transaction
-- it is given whether it took too long.
use proxy_verifier.Base.{Bool, true, not, List, [], ◌∷◌, ◌++◌, Option, none, some, if◌then◌else◌}
use proxy_verifier.Session.Errata.{Errata, error, is_ok}
use proxy_verifier.Session.Run.{Run, returned}
use proxy_verifier.Session.Socket.{Session}
use proxy_verifier.Transaction.Running.{Txn, Setting, Ended, then_run, run_transaction}

-- What comes of the system calls of `do_connect`: whether each succeeds, the messages of
-- `find_ip_endpoint` if an interface is given, those of the virtual `connect`, and the new socket.
pub record Connecting : Type 0 where
  pub socket_opens : Bool
  pub endpoint : Option Errata
  pub binds : Bool
  pub reuses : Bool
  pub connects : Bool
  pub unblocks : Bool
  pub connected : Errata
  pub socket : Session

-- `set_fd` of the new socket.
unfoldable pub set_fd : Connecting → Session → Session
set_fd c s = record s {
  is_open = true;
  reads = c.socket.reads;
  polls = c.socket.polls;
  writes = c.socket.writes;
  sent = [];
}

-- Behind the binding to an interface.
unfoldable pub connect_socket : Connecting → Errata → Session → Ended
unfolding set_fd
connect_socket c errata s =
    if not c.reuses
    then (errata ++ (error ∷ []), s)
    else if not (is_ok errata)
    then (errata ++ (error ∷ []), set_fd c s)
    else if not c.connects
    then (errata ++ (error ∷ []), set_fd c s)
    else if not c.unblocks
    then (errata ++ (error ∷ []), set_fd c s)
    else (errata ++ c.connected, set_fd c s)

unfoldable pub bind_socket : Connecting → Option Errata → Session → Ended
unfolding connect_socket
bind_socket c none s = connect_socket c [] s
bind_socket c (some errata) s =
    if not (is_ok errata)
    then (errata, s)
    else if not c.binds
    then (errata ++ (error ∷ []), s)
    else connect_socket c errata s

-- `Session::do_connect`
unfoldable pub do_connect : Connecting → Session → Ended
unfolding bind_socket
do_connect c s = if c.socket_opens then bind_socket c c.endpoint s else (error ∷ [], s)

-- A transaction of the list, what comes of connecting before it, and whether it takes longer than
-- `Transaction_Delay_Cutoff`.
pub record Turn : Type 0 where
  pub txn : Txn
  pub connecting : Connecting
  pub late : Bool

-- The messages of a transaction, with those behind it.
unfoldable pub noted : Bool → Errata → Errata
noted late errata =
    let failed = if is_ok errata then errata else errata ++ (error ∷ []) in
    if late then failed ++ (error ∷ []) else failed

-- `Session::run_transactions`, with the messages so far.
unfoldable pub run_transactions : Setting → List Turn → Errata → Session → Run Ended
unfolding do_connect run_transaction noted
run_transactions e [] all s = returned (all, s)
run_transactions e (turn ∷ turns) all s =
    let (errata, s1) = if s.is_open then ([], s) else do_connect turn.connecting s in
    let onward =
      then_run (run_transaction e turn.txn s1)
        (λ (more, s2). run_transactions e turns (all ++ noted turn.late (errata ++ more)) s2) in
    if is_ok errata then onward else returned (all ++ (errata ++ (error ∷ [])), s1)
