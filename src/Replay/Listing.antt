-- ===== src/Replay/Listing.antt =====
-- Every session of the list of `load_replay_file`, and every transaction of it, in order.
use proxy_verifier.Base.{
  true, List, [], ◌∷◌, ◌++◌, Option, none, some, ◌≡◌, refl, inl, inr, Bool-cases, codes, arith,
  if◌then◌else◌,
}
use proxy_verifier.Replay.Load.{
  Handler, Loaded, then_call, load_messages, load_transaction, load_transactions, list_notes,
  load_opened, load_session, load_sessions, sessions_of, load_list,
}
use proxy_verifier.Replay.Protocol.{
  Phase, idle, opens_bare, elements_of, in_session, opens, fails, closes, no_call, Loads,
  Loads_call, Loads_noted, then_call-Loads, Loads_if,
}
use proxy_verifier.Replay.Yaml.{null, scalar, sequence, mapping, NodeKind, YamlOps}
use proxy_verifier.Session.Errata.{
  Errata, Severity, diag, is_ok, is_ok-append, is_ok-append_front, Rv, error_stays,
}
use proxy_verifier.Swoc.{TextOps}
use proxy_verifier.Replay.Passing.{messages-Loads}

module _ (ops : TextOps) {Node S : Type 0} (yaml : YamlOps Node) (handler : Handler Node S)
    (file : Loaded Node) where
  -- No call: what is said alone.
  pub silent : (p : Phase Node) (s : S) (e : Errata) → Loads ops yaml handler file p s p (s, e)
  silent p s e = ([], (no_call, λ ok. refl))

  failure_added :
      (e : Errata)
      → is_ok (if is_ok e then e else e ++ (Severity.error ∷ [])) ≡ true
      → is_ok e ≡ true
  failure_added e ok = elim (Bool-cases (is_ok e)) [
    | inl h ↦ h
    | inr h ↦ error_stays e (ground (arith, ok, h))
  ]

  transaction-Loads :
      (ns ts : List Node) (n : Node) (s : S)
      → Loads ops yaml handler file
          (in_session ns (n ∷ ts))
          s
          (in_session ns ts)
          (load_transaction ops yaml handler n s)
  unfolding load_transaction
  transaction-Loads ns ts n s =
      let opened = handler.txn_open n s in
      let (s', errata) = load_messages ops yaml handler n opened in
      let front = if is_ok opened.1 then [] else Severity.error ∷ [] in
      let all = if is_ok errata then errata else errata ++ (Severity.error ∷ []) in
      Loads_noted ops yaml handler file (in_session ns (n ∷ ts)) s (in_session ns ts) s' errata
        (front ++ all) (λ ok. failure_added errata (is_ok-append front all ok))
        (messages-Loads ops yaml handler file ns ts n s)

  transactions-Loads :
      (ns ts : List Node) (s : S)
      → Loads ops yaml handler file
          (in_session ns ts)
          s
          (in_session ns [])
          (load_transactions ops yaml handler ts s)
  transactions-Loads ns [] s = silent (in_session ns []) s []
  transactions-Loads ns (n ∷ ts) s =
      then_call-Loads ops yaml handler file (in_session ns (n ∷ ts)) s (in_session ns ts)
        (in_session ns []) (load_transaction ops yaml handler n s)
        (load_transactions ops yaml handler ts) (transaction-Loads ns ts n s)
        (transactions-Loads ns ts (load_transaction ops yaml handler n s).0)

  opened-Loads :
      (n : Node) (ns : List Node) (s : S) (o : Option Node)
      → is_ok (handler.ssn_open n s).1 ≡ true
      → yaml.member n (codes "transactions") ≡ o
      → Loads ops yaml handler file
          (idle (n ∷ ns))
          s
          (idle ns)
          (load_opened ops yaml handler o (handler.ssn_open n s))
  unfolding load_opened
  opened-Loads n ns s none fine absent =
      let opened = handler.ssn_open n s in
      Loads_noted ops yaml handler file (idle (n ∷ ns)) s (idle ns) opened.0 opened.1
        (Severity.error ∷ []) (λ bad. ground (arith, bad))
        (Loads_call ops yaml handler file (idle (n ∷ ns)) s (idle ns) opened
          (opens_bare n ns s fine absent))
  opened-Loads n ns s (some txns) fine there =
      let opened = handler.ssn_open n s in
      let notes = list_notes ops yaml handler txns in
      let r : Rv S = (opened.0, opened.1 ++ notes) in
      let nodes = yaml.elements txns in
      let r' = then_call ops yaml handler r (load_transactions ops yaml handler nodes) in
      let l =
        Loads_noted ops yaml handler file (idle (n ∷ ns)) s (in_session ns nodes) opened.0 opened.1
          r.1 (is_ok-append_front opened.1 notes)
          (Loads_call ops yaml handler file (idle (n ∷ ns)) s (in_session ns nodes) opened
            (opens n ns txns s fine there)) in
      let l' =
        then_call-Loads ops yaml handler file (idle (n ∷ ns)) s (in_session ns nodes)
          (in_session ns []) r (load_transactions ops yaml handler nodes) l
          (transactions-Loads ns nodes opened.0) in
      then_call-Loads ops yaml handler file (idle (n ∷ ns)) s (in_session ns []) (idle ns) r'
        handler.ssn_close l'
        (Loads_call ops yaml handler file (in_session ns []) r'.0 (idle ns) (handler.ssn_close r'.0)
          (closes ns r'.0))

  session-Loads :
      (n : Node) (ns : List Node) (s : S)
      → Loads ops yaml handler file (idle (n ∷ ns)) s (idle ns) (load_session ops yaml handler n s)
  unfolding load_session
  session-Loads n ns s =
      let opened = handler.ssn_open n s in
      Loads_if ops yaml handler file (idle (n ∷ ns)) s (idle ns) (is_ok opened.1) _ _
        (λ fine. opened-Loads n ns s (yaml.member n (codes "transactions")) fine refl)
        (λ bad.
          Loads_noted ops yaml handler file (idle (n ∷ ns)) s (idle ns) opened.0 opened.1
            (opened.1 ++ (Severity.error ∷ [])) (is_ok-append_front opened.1 (Severity.error ∷ []))
            (Loads_call ops yaml handler file (idle (n ∷ ns)) s (idle ns) opened
              (fails n ns s bad)))

  sessions-Loads :
      (ns : List Node) (s : S)
      → Loads ops yaml handler file (idle ns) s (idle []) (load_sessions ops yaml handler ns s)
  sessions-Loads [] s = silent (idle []) s []
  sessions-Loads (n ∷ ns) s =
      then_call-Loads ops yaml handler file (idle (n ∷ ns)) s (idle ns) (idle [])
        (load_session ops yaml handler n s) (load_sessions ops yaml handler ns)
        (session-Loads n ns s) (sessions-Loads ns (load_session ops yaml handler n s).0)

  listed-Loads :
      (ns : List Node) (s : S)
      → Loads ops yaml handler file (idle ns) s (idle []) (sessions_of ops yaml handler ns s)
  listed-Loads [] s = silent (idle []) s (diag ∷ [])
  listed-Loads (n ∷ ns) s = sessions-Loads (n ∷ ns) s

  pub list-Loads :
      (o : Option Node) (s : S)
      → Loads ops yaml handler file
          (idle (elements_of ops yaml handler file o))
          s
          (idle [])
          (load_list ops yaml handler o s)
  unfolding load_list
  list-Loads none s = silent (idle []) s (Severity.error ∷ [])
  list-Loads (some list) s = by_kind (yaml.kind list)
    where
      by_kind :
          (k : NodeKind)
          → Loads ops yaml handler file
              (idle (elim k as (λ k'. List Node) [
                | sequence ↦ yaml.elements list
                | scalar ↦ []
                | mapping ↦ []
                | null ↦ []
              ]))
              s
              (idle [])
              (elim k as (λ k'. Rv S) [
                | sequence ↦ sessions_of ops yaml handler (yaml.elements list) s
                | scalar ↦ (s, Severity.error ∷ [])
                | mapping ↦ (s, Severity.error ∷ [])
                | null ↦ (s, Severity.error ∷ [])
              ])
      by_kind sequence = listed-Loads (yaml.elements list) s
      by_kind scalar = silent (idle []) s (Severity.error ∷ [])
      by_kind mapping = silent (idle []) s (Severity.error ∷ [])
      by_kind null = silent (idle []) s (Severity.error ∷ [])
