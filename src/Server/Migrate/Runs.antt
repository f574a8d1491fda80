-- ===== src/Server/Migrate/Runs.antt =====
-- Whole runs of the migrations (server/migrate.go).
use computeid_go.Common.{
  ◌≡◌, refl, ◌⊎◌, inl, inr, String, true, false, Option, none, some, List, [], ◌∷◌, ◌++◌, sym, ◌∙◌,
  subst, ◌==◌, eq_refl, Bool-cases, Option-cases, All, some_injective,
}
use computeid_go.Server.Migrate.{
  Store, Link, Files, trim_suffix, recorded, migrate_one, migrate_all,
}
use computeid_go.Server.Migrate.Listing.{IsUp}
use computeid_go.Server.Migrate.Laws.{Round, failed, skipped, applied, migrate_one-Round}

-- The version is in `schema_migrations`.
abbrev pub IsRecorded : {S : Type 0} → Store S → String → Type 0
IsRecorded s v = (vs : List String) × (s.versions ≡ some vs) × (recorded v vs ≡ true)

-- The changes that a run makes: the table of versions, and the script in the file of an up migration
-- with the record of its version, for a version that had none.
pub data Change {S : Type 0} (script : String → S → String ⊎ S) (files : Files) (s : Store S)
    : Store S → Type 0 where
  created : s.versions ≡ none → Change script files s (record s { versions = some [] })
  ran :
      (v name body : String) (t : S) (vs : List String)
      → IsUp files v name
      → files.read_file name ≡ inr body
      → s.versions ≡ some vs
      → recorded v vs ≡ false
      → script body s.tables ≡ inr t
      → Change script files s (record { tables = t; versions = some (vs ++ v ∷ []) })

pub data Changes {S : Type 0} (script : String → S → String ⊎ S) (files : Files) (s : Store S)
    : Store S → Type 0 where
  done : Changes script files s s
  more :
      {t u : Store S}
      → Changes script files s t
      → Change script files t u
      → Changes script files s u

recorded-append :
    (v u : String) (vs : List String) → recorded v vs ≡ true → recorded v (vs ++ u ∷ []) ≡ true
unfolding recorded
recorded-append v u [] h = cc
recorded-append v u (x ∷ vs) h = elim (Bool-cases (x == v)) [
  | inl same ↦ rw same
  | inr other ↦ rw other (recorded-append v u vs (rw (other, recorded) at h))
]

recorded_last : (v : String) (vs : List String) → recorded v (vs ++ v ∷ []) ≡ true
unfolding recorded
recorded_last v [] = rw (eq_refl v)
recorded_last v (x ∷ vs) = elim (Bool-cases (x == v)) [
  | inl same ↦ rw same
  | inr other ↦ rw other (recorded_last v vs)
]

module _ {S : Type 0} (script : String → S → String ⊎ S) (files : Files) where
  Change-IsRecorded :
      {s t : Store S} → Change script files s t → (v : String) → IsRecorded s v → IsRecorded t v
  Change-IsRecorded (created absent) v (vs, there, old) = cc (absent, there)
  Change-IsRecorded (ran u name body t us up read at_start new success) v (vs, there, old) = (
    us ++ u ∷ [],
    refl,
    recorded-append v u us
        (subst (λ ws. recorded v ws ≡ true) (some_injective (sym there ∙ at_start)) old),
  )

  pub Changes-IsRecorded :
      {s t : Store S} → Changes script files s t → (v : String) → IsRecorded s v → IsRecorded t v
  Changes-IsRecorded done v h = h
  Changes-IsRecorded (more s t) v h = Change-IsRecorded t v (Changes-IsRecorded s v h)

  pub Changes-trans :
      {s t u : Store S}
      → Changes script files s t
      → Changes script files t u
      → Changes script files s u
  Changes-trans s done = s
  Changes-trans s (more t u) = more (Changes-trans s t) u

  Round-Changes :
      (name v : String) (s s' : Store S) (r : Option String)
      → IsUp files v name
      → Round script (files.read_file name) v s s' r
      → Changes script files s s'
  Round-Changes name v s s' r up (failed e h same) = rw same done
  Round-Changes name v s s' r up (skipped vs h same there old) = rw same done
  Round-Changes name v s s' r up (applied body t vs h read there new success same) =
      rw same (more done (ran v name body t vs up read there new success))

  Round-IsRecorded :
      (name v : String) (s s' : Store S) (r : Option String)
      → Round script (files.read_file name) v s s' r
      → r ≡ none
      → IsRecorded s' v
  Round-IsRecorded name v s s' r (failed e h same) ok = cc (h, ok)
  Round-IsRecorded name v s s' r (skipped vs h same there old) ok = rw same (vs, there, old)
  Round-IsRecorded name v s s' r (applied body t vs h read there new success same) ok =
      rw same (vs ++ v ∷ [], refl, recorded_last v vs)

  -- What a run over these names leaves.
  pub record Ran (names : List String) (s : Store S) (r : Option String × Link S) : Type 0 where
    pub changes : Changes script files s r.1.store
    pub complete : r.0 ≡ none → All (λ n. IsRecorded r.1.store (trim_suffix n ".up.sql")) names

  pub migrate_all-Ran :
      (names : List String) (l : Link S)
      → All (λ n. IsUp files (trim_suffix n ".up.sql") n) names
      → Ran names l.store (migrate_all script files names l)
  unfolding migrate_all
  migrate_all-Ran [] l ups = record { changes = done; complete = λ _. tt }
  migrate_all-Ran (n ∷ ns) l (listed, ups) =
      let v = trim_suffix n ".up.sql" in
      let l' = (migrate_one script files n l).1 in
      let round = migrate_one-Round script files n l in
      let first =
        Round-Changes n v l.store l'.store (migrate_one script files n l).0 listed round in
      elim (Option-cases (migrate_one script files n l).0) [
        | inr (e, stopped) ↦
            rw (stopped, migrate_all) (record { changes = first; complete = λ h. cc h })
        | inl fine ↦
            let rest = migrate_all-Ran ns l' ups in
            rw (fine, migrate_all)
              (record {
                changes = Changes-trans first rest.changes;
                complete = λ h. (
                  Changes-IsRecorded rest.changes v
                      (Round-IsRecorded n v l.store l'.store _ round fine),
                  rest.complete h,
                );
              })
      ]
