-- ===== src/App/Briefing/Trail/Bounds.antt =====
-- The supersessions of a briefing: internal/app/service.go.
use mathlib.Core.Path.{subst}
use tuskbase.Common.{
  ℕ, String, ◌≤◌, ◌==◌, leb, ◌≡◌, ◌≢◌, refl, sym, ap, ◌∙◌, inl, inr, arith, Bool-cases, List, [],
  ◌∷◌, ◌++◌, length, length-append, All, trim_space, mem_text, Unrepeated, text_ne,
}
use tuskbase.Domain.Parse.{supersedes}
use tuskbase.Domain.Types.{DecisionRelationship, Decision}
use tuskbase.Ports.{Store}
use tuskbase.App.Briefing.Trail.{
  ContextSupersession, Trail, supersession, supersession_key, add_supersession, add_relationships,
  add_decisions, context_supersessions,
}

-- The keys of supersessions, newest first, as the loop marks them.
abbrev keys : List ContextSupersession → List String → List String
keys [] seen = seen
keys (x ∷ xs) seen = keys xs (supersession_key x.decision_id x.superseded_id ∷ seen)

abbrev NamesOne : ContextSupersession → Type 0
NamesOne x = x.superseded_id ≢ ""

-- At most `limit` supersessions, each of a decision that has a name, and no pair twice.
abbrev pub Sound : ℕ → List ContextSupersession → Type 0
Sound limit out = (length out ≤ limit) × All NamesOne out × Unrepeated (keys out [])

abbrev Keeps : ℕ → Trail → Type 0
Keeps limit trail = Sound limit trail.out × (keys trail.out [] ≡ trail.seen)

keys-append :
    (xs : List ContextSupersession) (x : ContextSupersession) (seen : List String)
    → keys (xs ++ x ∷ []) seen ≡ supersession_key x.decision_id x.superseded_id ∷ keys xs seen
keys-append [] x seen = refl
keys-append (y ∷ ys) x seen =
    keys-append ys x (supersession_key y.decision_id y.superseded_id ∷ seen)

All-append :
    (xs : List ContextSupersession) (x : ContextSupersession)
    → All NamesOne xs
    → NamesOne x
    → All NamesOne (xs ++ x ∷ [])
All-append [] x h n = (n, tt)
All-append (y ∷ ys) x (h, hs) n = (h, All-append ys x hs n)

module _ {F S : Type 0} (store : Store F S) (limit : ℕ) where
  add_supersession-Keeps :
      (d : Decision F) (superseded reason : String) (trail : Trail) (s : S)
      → Keeps limit trail
      → Keeps limit (add_supersession store limit d superseded reason trail s).0
  unfolding add_supersession supersession
  add_supersession-Keeps d superseded reason trail s h =
      let id = trim_space superseded in
      let key = supersession_key d.id id in
      let ((short, named, fresh), same) = h in
      elim (Bool-cases (leb limit (length trail.out))) [
        | inl full ↦ rw full h
        | inr room ↦ elim (Bool-cases (id == "")) [
          | inl blank ↦ rw (room, blank) h
          | inr given ↦ elim (Bool-cases (mem_text key trail.seen)) [
            | inl known ↦ rw (room, given, known) h
            | inr new ↦
                let x = supersession d id reason (store.get_decision id s).0 in
                let marked = keys-append trail.out x [] ∙ ap (λ l. key ∷ l) same in
                rw (room, given, new)
                  (
                    (
                      ground (arith, length-append trail.out (x ∷ [])),
                      All-append trail.out x named (text_ne id "" given),
                      subst Unrepeated (sym marked) (new, subst Unrepeated same fresh),
                    ),
                    marked,
                  )
          ]
        ]
      ]

  add_relationships-Keeps :
      (d : Decision F) (rels : List (DecisionRelationship F)) (trail : Trail) (s : S)
      → Keeps limit trail
      → Keeps limit (add_relationships store limit d rels trail s).0
  unfolding add_relationships
  add_relationships-Keeps d [] trail s h = h
  add_relationships-Keeps d (rel ∷ rels) trail s h = elim (Bool-cases (rel.type == supersedes)) [
    | inl is ↦ rw is (
        add_relationships-Keeps d rels _ _
          (add_supersession-Keeps d rel.to_decision_id rel.reason trail s h))
    | inr not_ ↦ rw not_ (add_relationships-Keeps d rels trail s h)
  ]

  add_decisions-Keeps :
      (ds : List (Decision F)) (trail : Trail) (s : S)
      → Keeps limit trail
      → Keeps limit (add_decisions store limit ds trail s).0
  unfolding add_decisions
  add_decisions-Keeps [] trail s h = h
  add_decisions-Keeps (d ∷ ds) trail s h = add_decisions-Keeps ds _ _ (
      add_relationships-Keeps d d.relationships _ _
        (add_supersession-Keeps d d.supersedes_id "Supersedes prior active decision." trail s h))

  -- A briefing has at most `limit` supersessions, whatever the store answers; each names the
  -- decision that was superseded, and no two have one key.
  pub context_supersessions-Sound :
      (ds : List (Decision F)) (s : S) → Sound limit (context_supersessions store limit ds s).0
  unfolding context_supersessions
  context_supersessions-Sound ds s =
      (add_decisions-Keeps ds (record { out = []; seen = [] }) s ((ground arith, tt, tt), refl)).0
