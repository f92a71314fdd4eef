-- ===== src/Replay/Passing.antt =====
-- The calls for the messages of a transaction are in turn.
use proxy_verifier.Base.{ℕ, List, ◌≡◌, refl, arith, Bytes, [], ◌∷◌, ◌++◌, codes}
use proxy_verifier.Multimap.Ops.{Multimap}
use proxy_verifier.Replay.Load.{
  Handler, Loaded, then_call, call_for, all_headers, all_fields, apply_all, load_messages,
}
use proxy_verifier.Replay.Protocol.{
  Phase, in_session, in_transaction, opens_txn, passes, asks_client, asks_proxy, answers_server,
  answers_proxy, applies, applies_nothing, closes_txn, message_fields, Loads, Loads_call,
  Loads_noted, then_call-Loads, call_for-Loads,
}
use proxy_verifier.Replay.Yaml.{YamlOps}
use proxy_verifier.Session.Errata.{is_ok-append_front, Rv}
use proxy_verifier.Swoc.{TextOps}

module _ (ops : TextOps) {Node S : Type 0} (yaml : YamlOps Node) (handler : Handler Node S)
    (file : Loaded Node) where
  applied :
      (ns ts : List Node) (n : Node) (table : Multimap Bytes) (s : S)
      → (message_fields ops yaml handler file n).fields ≡ table
      → Loads ops yaml handler file
          (in_transaction ns ts n 4)
          s
          (in_transaction ns ts n 5)
          (apply_all ops yaml handler (message_fields ops yaml handler file n) table s)
  applied ns ts n [] s none_there =
      Loads_call ops yaml handler file _ s _ (s, []) (applies_nothing ns ts n s none_there)
  applied ns ts n (f ∷ more) s there =
      Loads_call ops yaml handler file _ s _ _
        (applies ns ts n s (λ empty. ground (arith, there, empty)))

  pub messages-Loads :
      (ns ts : List Node) (n : Node) (s : S)
      → Loads ops yaml handler file
          (in_session ns (n ∷ ts))
          s
          (in_session ns ts)
          (load_messages ops yaml handler n (handler.txn_open n s))
  unfolding load_messages
  messages-Loads ns ts n s =
      let stage : ℕ → Phase Node = λ k. in_transaction ns ts n k in
      let opened = handler.txn_open n s in
      let reading =
        all_fields ops yaml handler (all_headers ops yaml handler (yaml.member n (codes "all"))) in
      let behind = then_call ops yaml handler in
      let for = call_for ops yaml handler in
      let client = yaml.member n (codes "client-request") in
      let proxy = yaml.member n (codes "proxy-request") in
      let server = yaml.member n (codes "server-response") in
      let answer = yaml.member n (codes "proxy-response") in
      let r0 : Rv S = (opened.0, opened.1 ++ reading.errata) in
      let r1 = behind r0 (for client handler.client_request) in
      let r2 = behind r1 (for proxy handler.proxy_request) in
      let r3 = behind r2 (for server handler.server_response) in
      let r4 = behind r3 (for answer handler.proxy_response) in
      let r5 = behind r4 (apply_all ops yaml handler reading.fields reading.fields.fields) in
      let l0 =
        Loads_noted ops yaml handler file (in_session ns (n ∷ ts)) s (stage 0) opened.0 opened.1
          r0.1 (is_ok-append_front opened.1 reading.errata)
          (Loads_call ops yaml handler file (in_session ns (n ∷ ts)) s (stage 0) opened
            (opens_txn ns n ts s)) in
      let l1 =
        then_call-Loads ops yaml handler file (in_session ns (n ∷ ts)) s (stage 0) (stage 1) r0
          (for client handler.client_request) l0
          (call_for-Loads ops yaml handler file (stage 0) r0.0 (stage 1) client
            handler.client_request (λ absent. passes ns ts n 0 r0.0 (omega arith) absent)
            (λ m there. asks_client ns ts n m r0.0 there)) in
      let l2 =
        then_call-Loads ops yaml handler file (in_session ns (n ∷ ts)) s (stage 1) (stage 2) r1
          (for proxy handler.proxy_request) l1
          (call_for-Loads ops yaml handler file (stage 1) r1.0 (stage 2) proxy handler.proxy_request
            (λ absent. passes ns ts n 1 r1.0 (omega arith) absent)
            (λ m there. asks_proxy ns ts n m r1.0 there)) in
      let l3 =
        then_call-Loads ops yaml handler file (in_session ns (n ∷ ts)) s (stage 2) (stage 3) r2
          (for server handler.server_response) l2
          (call_for-Loads ops yaml handler file (stage 2) r2.0 (stage 3) server
            handler.server_response (λ absent. passes ns ts n 2 r2.0 (omega arith) absent)
            (λ m there. answers_server ns ts n m r2.0 there)) in
      let l4 =
        then_call-Loads ops yaml handler file (in_session ns (n ∷ ts)) s (stage 3) (stage 4) r3
          (for answer handler.proxy_response) l3
          (call_for-Loads ops yaml handler file (stage 3) r3.0 (stage 4) answer
            handler.proxy_response (λ absent. passes ns ts n 3 r3.0 (omega arith) absent)
            (λ m there. answers_proxy ns ts n m r3.0 there)) in
      let l5 =
        then_call-Loads ops yaml handler file (in_session ns (n ∷ ts)) s (stage 4) (stage 5) r4
          (apply_all ops yaml handler reading.fields reading.fields.fields) l4
          (applied ns ts n reading.fields.fields r4.0 refl) in
      then_call-Loads ops yaml handler file (in_session ns (n ∷ ts)) s (stage 5) (in_session ns ts)
        r5 handler.txn_close l5
        (Loads_call ops yaml handler file (stage 5) r5.0 _ _ (closes_txn ns ts n r5.0))
