-- ===== src/Config/Each.antt =====
-- wireproxy/config.go: the loop over sections of `ParsePeers` and `parseRoutinesConfig`, and what a
-- run of it says of every section.
use mathlib.Core.List.{append-nil, append_assoc}
use scramjet_app.Base.{
  >>=-eq-ok, All, List, Result, [], ap, length, ok, ok_inj, refl, suc, sym, ◌++◌, ◌>>=◌, ◌∙◌, ◌∷◌,
  ◌≡◌,
}

module _ {ℓ κ} {S : Type ℓ} {A : Type κ} (f : S → Result A) where
  -- `for _, section := range sections { …; *items = append(*items, item) }`
  unfoldable pub append_all : List S → List A → Result (List A)
  append_all [] items = ok items
  append_all (section ∷ sections) items = do
    item ← f section
    append_all sections (items ++ item ∷ [])

  -- One item for each section, in the same order.
  pub data Each : List S → List A → Type (ℓ ⊔ κ) where
    nil : Each [] []
    cons :
        {section : S} {sections : List S} {item : A} {items : List A}
        → f section ≡ ok item
        → Each sections items
        → Each (section ∷ sections) (item ∷ items)

  pub append_all_sound :
      (sections : List S) (items result : List A)
      → append_all sections items ≡ ok result
      → (new : List A) × Each sections new × (result ≡ items ++ new)
  unfolding append_all
  append_all_sound [] items result h = ([], nil, sym (ok_inj h) ∙ sym (append-nil items))
  append_all_sound (section ∷ sections) items result h =
      let (item, parsed, h1) = >>=-eq-ok (f section) _ h in
      let (new, each, e) = append_all_sound sections (items ++ item ∷ []) result h1 in
      (item ∷ new, cons parsed each, e ∙ append_assoc items (item ∷ []) new)

  pub append_all_complete :
      {sections : List S} {new : List A} (items : List A)
      → Each sections new
      → append_all sections items ≡ ok (items ++ new)
  unfolding append_all
  append_all_complete items nil = ap ok (sym (append-nil items))
  append_all_complete items (cons {sections} {item} {items = new} p each) =
      rw p
        (append_all_complete (items ++ item ∷ []) each ∙ ap ok (append_assoc items (item ∷ []) new))

  pub Each-length :
      {sections : List S} {items : List A} → Each sections items → length items ≡ length sections
  Each-length nil = refl
  Each-length (cons p each) = ap suc (Each-length each)

  pub Each-All {μ} :
      (P : A → Type μ)
      → ((section : S) (item : A) → f section ≡ ok item → P item)
      → {sections : List S} {items : List A} → Each sections items
      → All P items
  Each-All P h nil = tt
  Each-All P h (cons p each) = (h _ _ p, Each-All P h each)
