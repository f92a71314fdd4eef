-- ===== src/Replay/Protocol.antt =====
-- The calls of a handler that a file asks for, as a step relation on phases.
use proxy_verifier.Base.{
  ℕ, zero, suc, ◌≤◌, Bytes, List, ◌∷◌, ◌≢◌, Bool, true, false, [], ◌++◌, Option, none, some, ◌≡◌,
  refl, sym, subst, codes, append-nil, append_assoc, if◌then◌else◌,
}
use proxy_verifier.Fields.Defs.{HttpFields}
use proxy_verifier.Replay.Load.{
  Handler, Loaded, root, then_call, call_for, all_headers, all_fields, global_node,
}
use proxy_verifier.Replay.Yaml.{null, scalar, sequence, mapping, YamlOps}
use proxy_verifier.Session.Errata.{Errata, is_ok, Rv, is_ok-append, is_ok-append_front, is_ok_both}
use proxy_verifier.Swoc.{TextOps}

-- Where the loading is, with the nodes of sessions and of transactions that are still to come; a
-- transaction is open for a node, and so many of its stages were passed.
pub data Phase (Node : Type 0) : Type 0 where
  closed refused file_opened : Phase Node
  idle : List Node → Phase Node
  in_session : List Node → List Node → Phase Node
  in_transaction : List Node → List Node → Node → ℕ → Phase Node

-- The key of the message of a stage.
abbrev pub message_key : ℕ → Bytes
message_key zero = codes "client-request"
message_key (suc zero) = codes "proxy-request"
message_key (suc (suc zero)) = codes "server-response"
message_key (suc (suc (suc k))) = codes "proxy-response"

module _ (ops : TextOps) {Node S : Type 0} (yaml : YamlOps Node) (handler : Handler Node S)
    (file : Loaded Node) where
  -- The sessions of a root: there are none unless `sessions` is a sequence.
  abbrev pub elements_of : Option Node → List Node
  elements_of none = []
  elements_of (some list) = elim (yaml.kind list) as (λ k. List Node) [
    | sequence ↦ yaml.elements list
    | scalar ↦ []
    | mapping ↦ []
    | null ↦ []
  ]

  -- The fields for the whole file, and those for all messages of a transaction.
  abbrev pub global_fields : Node → HttpFields
  global_fields node =
      (all_fields ops yaml handler
        (global_node ops yaml handler (yaml.member node (codes "meta")))).fields

  abbrev pub message_fields : Node → HttpFields
  message_fields node =
      (all_fields ops yaml handler
        (all_headers ops yaml handler (yaml.member node (codes "all")))).fields

  -- What may be done in a phase, the phase behind it, and what it gives. The messages of `file_close`
  -- are not kept.
  pub data Allowed : Phase Node → S → Phase Node → Rv S → Type 0 where
    opens_file :
        (s : S)
        → is_ok (handler.file_open s).1 ≡ true
        → Allowed closed s file_opened (handler.file_open s)
    fails_file :
        (s : S)
        → is_ok (handler.file_open s).1 ≡ false
        → Allowed closed s refused (handler.file_open s)
    closes_refused : (s : S) → Allowed refused s closed ((handler.file_close s).0, [])
    closes_unread :
        (s : S)
        → ((node : Node) → file ≢ root node)
        → Allowed file_opened s closed ((handler.file_close s).0, [])
    configures :
        (node : Node) (s : S)
        → file ≡ root node
        → Allowed file_opened s
            (idle (elements_of (yaml.member node (codes "sessions"))))
            (handler.configure (global_fields node) s, [])
    closes_file : (s : S) → Allowed (idle []) s closed ((handler.file_close s).0, [])
    fails :
        (n : Node) (ns : List Node) (s : S)
        → is_ok (handler.ssn_open n s).1 ≡ false
        → Allowed (idle (n ∷ ns)) s (idle ns) (handler.ssn_open n s)
    opens_bare :
        (n : Node) (ns : List Node) (s : S)
        → is_ok (handler.ssn_open n s).1 ≡ true
        → yaml.member n (codes "transactions") ≡ none
        → Allowed (idle (n ∷ ns)) s (idle ns) (handler.ssn_open n s)
    opens :
        (n : Node) (ns : List Node) (txns : Node) (s : S)
        → is_ok (handler.ssn_open n s).1 ≡ true
        → yaml.member n (codes "transactions") ≡ some txns
        → Allowed (idle (n ∷ ns)) s (in_session ns (yaml.elements txns)) (handler.ssn_open n s)
    opens_txn :
        (ns : List Node) (n : Node) (ts : List Node) (s : S)
        → Allowed (in_session ns (n ∷ ts)) s (in_transaction ns ts n 0) (handler.txn_open n s)
    passes :
        (ns ts : List Node) (n : Node) (k : ℕ) (s : S)
        → k ≤ 3
        → yaml.member n (message_key k) ≡ none
        → Allowed (in_transaction ns ts n k) s (in_transaction ns ts n (suc k)) (s, [])
    asks_client :
        (ns ts : List Node) (n m : Node) (s : S)
        → yaml.member n (codes "client-request") ≡ some m
        → Allowed
            (in_transaction ns ts n 0)
            s
            (in_transaction ns ts n 1)
            (handler.client_request m s)
    asks_proxy :
        (ns ts : List Node) (n m : Node) (s : S)
        → yaml.member n (codes "proxy-request") ≡ some m
        → Allowed
            (in_transaction ns ts n 1)
            s
            (in_transaction ns ts n 2)
            (handler.proxy_request m s)
    answers_server :
        (ns ts : List Node) (n m : Node) (s : S)
        → yaml.member n (codes "server-response") ≡ some m
        → Allowed
            (in_transaction ns ts n 2)
            s
            (in_transaction ns ts n 3)
            (handler.server_response m s)
    answers_proxy :
        (ns ts : List Node) (n m : Node) (s : S)
        → yaml.member n (codes "proxy-response") ≡ some m
        → Allowed
            (in_transaction ns ts n 3)
            s
            (in_transaction ns ts n 4)
            (handler.proxy_response m s)
    applies :
        (ns ts : List Node) (n : Node) (s : S)
        → (message_fields n).fields ≢ []
        → Allowed
            (in_transaction ns ts n 4)
            s
            (in_transaction ns ts n 5)
            (handler.apply_to_all_messages (message_fields n) s)
    applies_nothing :
        (ns ts : List Node) (n : Node) (s : S)
        → (message_fields n).fields ≡ []
        → Allowed (in_transaction ns ts n 4) s (in_transaction ns ts n 5) (s, [])
    closes_txn :
        (ns ts : List Node) (n : Node) (s : S)
        → Allowed (in_transaction ns ts n 5) s (in_session ns ts) (handler.txn_close s)
    closes : (ns : List Node) (s : S) → Allowed (in_session ns []) s (idle ns) (handler.ssn_close s)

  -- Calls in turn, each on the state that the one before it has left, with all of their messages.
  pub data Run (p : Phase Node) (s : S) : Errata → Phase Node → S → Type 0 where
    no_call : Run p s [] p s
    and_call :
        {log : Errata} {q r : Phase Node} {t : S} (result : Rv S)
        → Run p s log q t
        → Allowed q t r result
        → Run p s (log ++ result.1) r result.0

  -- Allowed calls lead to a result, which has no error only if none of them has one.
  abbrev pub Loads : Phase Node → S → Phase Node → Rv S → Type 0
  Loads p s q result =
      (log : Errata) × (Run p s log q result.0 × (is_ok result.1 ≡ true → is_ok log ≡ true))

  Run_trans :
      {p q : Phase Node} {s t : S} {a : Errata} {b : Errata} {r : Phase Node} {u : S}
      → Run p s a q t
      → Run q t b r u
      → Run p s (a ++ b) r u
  Run_trans {p = p} {q = q} {s = s} {t = t} {a = a} run no_call =
      subst (λ l. Run p s l q t) (sym (append-nil a)) run
  Run_trans {p = p} {s = s} {a = a} run (and_call {log = log} {r = r} result more allowed) =
      subst (λ l. Run p s l r result.0) (append_assoc a log result.1)
        (and_call result (Run_trans run more) allowed)

  pub Loads_call :
      (p : Phase Node) (s : S) (q : Phase Node) (result : Rv S)
      → Allowed p s q result
      → Loads p s q result
  Loads_call p s q result allowed = (result.1, (and_call result no_call allowed, λ ok. ok))

  -- With more messages.
  pub Loads_noted :
      (p : Phase Node) (s : S) (q : Phase Node) (t : S) (a b : Errata)
      → (is_ok b ≡ true → is_ok a ≡ true)
      → Loads p s q (t, a)
      → Loads p s q (t, b)
  Loads_noted p s q t a b h (log, (run, ok)) = (log, (run, λ fine. ok (h fine)))

  pub then_call-Loads :
      (p : Phase Node) (s : S) (q r : Phase Node) (result : Rv S) (f : S → Rv S)
      → Loads p s q result
      → Loads q result.0 r (f result.0)
      → Loads p s r (then_call ops yaml handler result f)
  then_call-Loads p s q r (t, errata) f (log, (run, ok)) (log', (run', ok')) =
      let more = (f t).1 in
      (
        log ++ log',
        (
          Run_trans run run',
          λ fine.
              is_ok_both log log' (ok (is_ok-append_front errata more fine))
                (ok' (is_ok-append errata more fine)),
        ),
      )

  -- A stage of a transaction, with a call or without.
  pub call_for-Loads :
      (p : Phase Node) (s : S) (q : Phase Node) (o : Option Node) (f : Node → S → Rv S)
      → (o ≡ none → Allowed p s q (s, []))
      → ((m : Node) → o ≡ some m → Allowed p s q (f m s))
      → Loads p s q (call_for ops yaml handler o f s)
  call_for-Loads p s q none f h' h = Loads_call p s q (s, []) (h' refl)
  call_for-Loads p s q (some m) f h' h = Loads_call p s q (f m s) (h m refl)

  -- A test chooses one of two results.
  pub Loads_if :
      (p : Phase Node) (s : S) (q : Phase Node) (b : Bool) (x y : Rv S)
      → (b ≡ true → Loads p s q x)
      → (b ≡ false → Loads p s q y)
      → Loads p s q (if b then x else y)
  Loads_if p s q true x y h k = h refl
  Loads_if p s q false x y h k = k refl
