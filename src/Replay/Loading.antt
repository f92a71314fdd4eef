-- ===== src/Replay/Loading.antt =====
-- `load_replay_file` keeps to the protocol of a handler.
use proxy_verifier.Base.{
  sym, ◌∙◌, ◌≢◌, [], ◌∷◌, ◌++◌, ◌≡◌, refl, inl, inr, Bool-cases, codes, arith,
}
use proxy_verifier.Replay.Load.{
  Handler, Loaded, unreadable, malformed, root, then_call, all_fields, global_node, meta_note,
  load_list, load_root, load_replay_file,
}
use proxy_verifier.Replay.Protocol.{
  Phase, closed, refused, file_opened, idle, closes_unread, elements_of, Allowed, opens_file,
  fails_file, closes_file, closes_refused, configures, and_call, Loads, Loads_call, Loads_noted,
  then_call-Loads,
}
use proxy_verifier.Replay.Yaml.{YamlOps}
use proxy_verifier.Session.Errata.{Errata, Severity, is_ok, is_ok_both, Rv}
use proxy_verifier.Swoc.{TextOps}
use proxy_verifier.Replay.Listing.{silent, list-Loads}

module _ (ops : TextOps) {Node S : Type 0} (yaml : YamlOps Node) (handler : Handler Node S)
    (file : Loaded Node) where
  -- What is left to do once the file is read, so that it can be closed.
  abbrev FileDone : S → Rv S → Type 0
  FileDone s result =
      (q : Phase Node) × (((t : S)
          → Allowed ops yaml handler file q t closed ((handler.file_close t).0, []))
        × Loads ops yaml handler file file_opened s q result)

  root-FileDone :
      (loaded : Loaded Node) (s : S)
      → file ≡ loaded
      → FileDone s (load_root ops yaml handler loaded s)
  unfolding load_root
  root-FileDone unreadable s e = (
    file_opened,
    (
      λ t. closes_unread t (λ node e'. absurd (no_root (sym e ∙ e'))),
      silent ops yaml handler file file_opened s (Severity.error ∷ []),
    ),
  )
    where
      no_root : {node : Node} → unreadable ≢ root node
      no_root h = ground (arith, h)
  root-FileDone malformed s e = (
    file_opened,
    (
      λ t. closes_unread t (λ node e'. absurd (no_root (sym e ∙ e'))),
      silent ops yaml handler file file_opened s (Severity.error ∷ []),
    ),
  )
    where
      no_root : {node : Node} → malformed ≢ root node
      no_root h = ground (arith, h)
  root-FileDone (root node) s e =
      let meta = yaml.member node (codes "meta") in
      let reading = all_fields ops yaml handler (global_node ops yaml handler meta) in
      let list = yaml.member node (codes "sessions") in
      let start : Phase Node = idle (elements_of ops yaml handler file list) in
      let r : Rv S =
        (handler.configure reading.fields s, meta_note ops yaml handler meta ++ reading.errata) in
      let l =
        Loads_noted ops yaml handler file file_opened s start r.0 [] r.1 (λ fine. refl)
          (Loads_call ops yaml handler file file_opened s start (r.0, []) (configures node s e)) in
      (
        idle [],
        (
          closes_file,
          then_call-Loads ops yaml handler file file_opened s start (idle []) r
              (load_list ops yaml handler list) l (list-Loads ops yaml handler file list r.0),
        ),
      )

  -- `load_replay_file` makes the calls of the protocol, which are for a file that opens without an
  -- error and has a root: the fields of `meta`, then every session of the list, in order; in every
  -- session that opens without an error and has transactions every one of them, in order; in every
  -- transaction its opening, a call for each of the four messages that is there and none for one that
  -- is not, the fields of `all`, if there are any, and its closing; then the closing of the session,
  -- which there is none of for a session without transactions. The file is closed in the end. If the
  -- result has no error, no call but that of `file_close` has given one.
  pub load_replay_file-Loads :
      (s : S)
      → Loads ops yaml handler file closed s closed (load_replay_file ops yaml handler file s)
  unfolding load_replay_file
  load_replay_file-Loads s =
      let opened = handler.file_open s in
      let loaded = then_call ops yaml handler opened (load_root ops yaml handler file) in
      elim (Bool-cases (is_ok opened.1)) [
        | inl fine ↦
            let (q, (allowed, l)) = root-FileDone file opened.0 refl in
            rw fine (
              file_closed q loaded.0 loaded.1 (allowed loaded.0) (
                then_call-Loads ops yaml handler file closed s file_opened q opened
                  (load_root ops yaml handler file)
                  (Loads_call ops yaml handler file closed s file_opened opened (opens_file s fine))
                  l))
        | inr bad ↦ rw bad (
            file_closed refused opened.0 opened.1 (closes_refused opened.0)
              (Loads_call ops yaml handler file closed s refused opened (fails_file s bad)))
      ]
    where
      file_closed :
          (q : Phase Node) (t : S) (e : Errata)
          → Allowed ops yaml handler file q t closed ((handler.file_close t).0, [])
          → Loads ops yaml handler file closed s q (t, e)
          → Loads ops yaml handler file closed s closed ((handler.file_close t).0, e)
      file_closed q t e allowed (log, (run, ok)) = (
        log ++ [],
        (
          and_call ((handler.file_close t).0, []) run allowed,
          λ fine. is_ok_both log [] (ok fine) refl,
        ),
      )
