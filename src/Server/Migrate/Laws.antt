-- ===== src/Server/Migrate/Laws.antt =====
-- What a run of the migrations leaves, and a second run (server/migrate.go).
use computeid_go.Common.{
  ◌+◌, ◌≡◌, refl, ◌⊎◌, inl, inr, String, Bool, true, false, Option, none, some, List, [], ◌∷◌, ◌++◌,
  sym, ap, ◌∙◌, Bool-cases, Option-cases,
}
use computeid_go.Server.Db.{Sum-cases}
use computeid_go.Server.Migrate.{
  Store, Link, Files, trim_suffix, recorded, send, is_applied, border, run_script, record_version,
  commit_version, insert_version, apply_script, apply_version, migrate_one, read_and_apply,
}

module _ {S : Type 0} where
  -- The link after a statement that changes nothing.
  abbrev pub next : Link S → Link S
  next l = record l { statements = l.statements + 1 }

  -- A statement fails, or gives what it gives on the store.
  pub data Sent {A : Type 0} (q : Store S → String ⊎ (A × Store S)) (l : Link S) : Type 0 where
    lost : (e : String) → send q l ≡ (inl e, next l) → Sent q l
    taken :
        (a : A) (s : Store S)
        → q l.store ≡ inr (a, s)
        → send q l ≡ (inr a, record (next l) { store = s })
        → Sent q l

  pub sent : {A : Type 0} (q : Store S → String ⊎ (A × Store S)) (l : Link S) → Sent q l
  unfolding send
  sent q l = elim (Option-cases (l.fault l.statements)) [
    | inr (e, f) ↦ lost e (rw (f, send))
    | inl up ↦ elim (Sum-cases (q l.store)) [
      | inl (e, r) ↦ lost e (rw (up, send, r))
      | inr ((a, s), r) ↦ taken a s r (rw (up, send, r))
    ]
  ]

  -- How one migration of the loop ends, from store `s` to store `s'`; `got` is what the read of its
  -- file gives.
  pub data Round (script : String → S → String ⊎ S) (got : String ⊎ String) (v : String)
      (s s' : Store S) (r : Option String) : Type 0 where
    failed : (e : String) → r ≡ some e → s' ≡ s → Round script got v s s' r
    skipped :
        (vs : List String)
        → r ≡ none
        → s' ≡ s
        → s.versions ≡ some vs
        → recorded v vs ≡ true
        → Round script got v s s' r
    applied :
        (body : String) (t : S) (vs : List String)
        → r ≡ none
        → got ≡ inr body
        → s.versions ≡ some vs
        → recorded v vs ≡ false
        → script body s.tables ≡ inr t
        → s' ≡ record { tables = t; versions = some (vs ++ v ∷ []) }
        → Round script got v s s' r

  module _ (script : String → S → String ⊎ S) (got : String ⊎ String) where
    abbrev pub Ends : String → Store S → Option String × Link S → Type 0
    Ends v s r = Round script got v s r.1.store r.0

    commit-Round :
        (v body : String) (saved : Store S) (t : S) (vs : List String) (l : Link S)
        → got ≡ inr body
        → l.store ≡ record { tables = t; versions = some (vs ++ v ∷ []) }
        → saved.versions ≡ some vs
        → recorded v vs ≡ false
        → script body saved.tables ≡ inr t
        → Ends v saved (commit_version saved l)
    unfolding commit_version
    commit-Round v body saved t vs l read now there new ran = elim (sent border l) [
      | lost e r ↦ rw (r, commit_version) (failed e refl refl)
      | taken a s q r ↦
          let same : l.store ≡ s = cc q in
          rw (r, commit_version, r) (applied body t vs refl read there new ran (sym same ∙ now))
    ]

    insert-Round :
        (v body : String) (saved : Store S) (t : S) (vs : List String) (l : Link S)
        → got ≡ inr body
        → l.store ≡ record { tables = t; versions = some vs }
        → saved.versions ≡ some vs
        → recorded v vs ≡ false
        → script body saved.tables ≡ inr t
        → Ends v saved (insert_version saved v l)
    unfolding insert_version
    insert-Round v body saved t vs l read now there new ran = elim (sent (record_version v) l) [
      | lost e r ↦ rw (r, insert_version) (failed e refl refl)
      | taken a s q r ↦
          let kept : record { tables = t; versions = some (vs ++ v ∷ []) } ≡ s =
            cc (rw (now, record_version, new) at q) in
          rw (r, insert_version, r)
            (commit-Round v body saved t vs (record (next l) { store = s }) read (sym kept) there
              new ran)
    ]

    apply_script-Round :
        (v body : String) (saved : Store S) (vs : List String) (l : Link S)
        → got ≡ inr body
        → l.store ≡ saved
        → saved.versions ≡ some vs
        → recorded v vs ≡ false
        → Ends v saved (apply_script script saved v body l)
    unfolding apply_script
    apply_script-Round v body saved vs l read now there new =
        elim (sent (run_script script body) l) [
          | lost e r ↦ rw (r, apply_script) (failed _ refl refl)
          | taken a s q r ↦ elim (Sum-cases (script body saved.tables)) [
            | inl (e, bad) ↦ cc (rw (now, run_script, bad) at q)
            | inr (t, ran) ↦
                let kept : record { tables = t; versions = saved.versions } ≡ s =
                  cc (rw (now, run_script, ran) at q) in
                rw (r, apply_script, r)
                  (insert-Round v body saved t vs (record (next l) { store = s }) read
                    (sym kept
                      ∙ ap (λ (o : Option (List String)). record { tables = t; versions = o })
                          there)
                    there new ran)
          ]
        ]

    apply_version-Round :
        (v body : String) (vs : List String) (l : Link S)
        → got ≡ inr body
        → l.store.versions ≡ some vs
        → recorded v vs ≡ false
        → Ends v l.store (apply_version script v body l)
    unfolding apply_version
    apply_version-Round v body vs l read there new = elim (sent border l) [
      | lost e r ↦ rw (r, apply_version, r) (failed e refl refl)
      | taken a s q r ↦
          let same : l.store ≡ s = cc q in
          rw (r, apply_version, r, ← same)
            (apply_script-Round v body l.store vs (record (next l) { store = l.store }) read refl
              there new)
    ]

  module _ (script : String → S → String ⊎ S) where
    read-Round :
        (files : Files) (name v : String) (vs : List String) (l : Link S)
        → l.store.versions ≡ some vs
        → recorded v vs ≡ false
        → Ends script (files.read_file name) v l.store (read_and_apply script files name v l)
    read-Round files name v vs l there new = elim (Sum-cases (files.read_file name)) [
      | inl (e, bad) ↦ rw (bad, read_and_apply) (failed e refl refl)
      | inr (body, read) ↦
          rw (read, read_and_apply)
            (apply_version-Round script (inr body) v body vs l refl there new)
    ]

    -- Whatever fails, a round leaves the store as it was, or has run the script of its own file and recorded it.
    pub migrate_one-Round :
        (files : Files) (name : String) (l : Link S)
        → Ends script
            (files.read_file name)
            (trim_suffix name ".up.sql")
            l.store
            (migrate_one script files name l)
    unfolding migrate_one
    migrate_one-Round files name l = elim (sent (is_applied (trim_suffix name ".up.sql")) l) [
      | lost e r ↦ rw (r, migrate_one, r) (failed _ refl refl)
      | taken a s q r ↦ elim (Option-cases l.store.versions) [
        | inl absent ↦ cc (rw (absent, is_applied) at q)
        | inr (vs, there) ↦
            let both : ◌≡◌ {A = Bool × Store S} (recorded (trim_suffix name ".up.sql") vs, l.store)
                (a, s) =
              cc (rw (there, is_applied) at q) in
            let same : l.store ≡ s = ap (λ (u : Bool × Store S). u.1) both in
            let found : recorded (trim_suffix name ".up.sql") vs ≡ a =
              ap (λ (u : Bool × Store S). u.0) both in
            elim (Bool-cases a) [
              | inl old ↦
                  rw (r, migrate_one, old, r) (skipped vs refl (sym same) there (found ∙ old))
              | inr new ↦
                  rw (r, migrate_one, new, r, ← same)
                    (read-Round files name (trim_suffix name ".up.sql") vs
                      (record (next l) { store = l.store }) there (found ∙ new))
            ]
      ]
    ]
