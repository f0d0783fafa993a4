-- ===== src/Config/Names.antt =====
-- The names of the properties differ, since `add` refuses a name that is there:
-- src/config/Config.cpp.
use eeros_framework.Base.{
  ℕ, ◌+◌, ◌≡◌, refl, subst, ◌∙◌, true, false, none, some, List, [], ◌∷◌, arith, ◌==◌, Bool-cases,
  Option-cases, inl, inr, ok, All,
}
use eeros_framework.Config.{
  Property, Format, array, text_lt, same_text, find, insert, add, add_array,
}
use eeros_framework.Config.Streams.{Text}

text_lt_irrefl : (a : Text) → text_lt a a ≡ false
unfolding text_lt
text_lt_irrefl [] = refl
text_lt_irrefl (c ∷ cs) = ground (arith, text_lt_irrefl cs)

pub same_text_refl : (a : Text) → same_text a a ≡ true
same_text_refl a = ground (arith, text_lt_irrefl a)

same_text_sym : (a b : Text) → same_text a b ≡ same_text b a
same_text_sym a b = ground arith

module _ {V : Type 0} where
  -- No two of the names are the same.
  abbrev pub Distinct : List (Text × Property V) → Type 0
  Distinct [] = Unit
  Distinct ((name, p) ∷ ps) = All (λ q. same_text name q.0 ≡ false) ps × Distinct ps

  find-none :
      (name : Text) (ps : List (Text × Property V))
      → find name ps ≡ none
      → All (λ q. same_text name q.0 ≡ false) ps
  unfolding find
  find-none name [] h = tt
  find-none name ((n, p) ∷ ps) h = elim (Bool-cases (same_text n name)) [
    | inl same ↦ cc (rw same at h)
    | inr other ↦ (same_text_sym name n ∙ other, find-none name ps (rw other at h))
  ]

  insert-All :
      (P : Text × Property V → Type 0) (name : Text) (p : Property V)
      (ps : List (Text × Property V))
      → P (name, p)
      → All P ps
      → All P (insert name p ps)
  unfolding insert
  insert-All P name p [] h k = (h, tt)
  insert-All P name p ((n, q) ∷ ps) h k = elim (Bool-cases (text_lt name n)) [
    | inl before ↦ rw before (h, (k.0, k.1))
    | inr behind ↦ rw behind (k.0, insert-All P name p ps h k.1)
  ]

  insert-Distinct :
      (name : Text) (p : Property V) (ps : List (Text × Property V))
      → All (λ q. same_text name q.0 ≡ false) ps
      → Distinct ps
      → Distinct (insert name p ps)
  unfolding insert
  insert-Distinct name p [] h d = (tt, tt)
  insert-Distinct name p ((n, q) ∷ ps) h d = elim (Bool-cases (text_lt name n)) [
    | inl before ↦ rw before (h, d)
    | inr behind ↦ rw behind (
      insert-All (λ q. same_text n q.0 ≡ false) name p ps (same_text_sym n name ∙ h.0) d.0,
      insert-Distinct name p ps h.1 d.1,
    )
  ]

  pub add-Distinct :
      (name : Text) (p : Property V) (ps qs : List (Text × Property V))
      → Distinct ps
      → add name p ps ≡ ok qs
      → Distinct qs
  unfolding add
  add-Distinct name p ps qs d h = elim (Option-cases (find name ps)) [
    | inl new ↦
        subst Distinct (ground (arith, new, h))
          (insert-Distinct name p ps (find-none name ps new) d)
    | inr (q, old) ↦ cc (rw old at h)
  ]

  add_array-eq-ok :
      (name : Text) (f : Format V) (len start end : ℕ) (default : V)
      (ps qs : List (Text × Property V))
      → add_array name f len start end default ps ≡ ok qs
      → add name (array f len start default) ps ≡ ok qs
  unfolding add_array
  add_array-eq-ok name f len start end default ps qs h = elim (Bool-cases (start + len == end)) [
    | inl e ↦ rw e at h
    | inr e ↦ cc (rw e at h)
  ]

  -- Properties that calls of `add` put into an empty configuration.
  pub data Registered : List (Text × Property V) → Type 0 where
    none_added : Registered []
    added :
        (name : Text) (p : Property V) (ps qs : List (Text × Property V))
        → Registered ps
        → add name p ps ≡ ok qs
        → Registered qs
    array_added :
        (name : Text) (f : Format V) (len start end : ℕ) (default : V)
        (ps qs : List (Text × Property V))
        → Registered ps
        → add_array name f len start end default ps ≡ ok qs
        → Registered qs

  pub Registered-Distinct : {ps : List (Text × Property V)} → Registered ps → Distinct ps
  Registered-Distinct none_added = tt
  Registered-Distinct (added name p ps qs r h) = add-Distinct name p ps qs (Registered-Distinct r) h
  Registered-Distinct (array_added name f len start end default ps qs r h) =
      add-Distinct name (array f len start default) ps qs (Registered-Distinct r)
        (add_array-eq-ok name f len start end default ps qs h)

  find_behind :
      (n : Text) (p : Property V) (ps qs : List (Text × Property V))
      → All (λ q. same_text n q.0 ≡ false) qs
      → All (λ q. find q.0 ps ≡ some q.1) qs
      → All (λ q. find q.0 ((n, p) ∷ ps) ≡ some q.1) qs
  unfolding find
  find_behind n p ps [] h k = tt
  find_behind n p ps (q ∷ qs) h k = (rw h.0 k.0, find_behind n p ps qs h.1 k.1)

  -- Each property is found by its name.
  pub find_listed :
      (ps : List (Text × Property V)) → Distinct ps → All (λ q. find q.0 ps ≡ some q.1) ps
  unfolding find
  find_listed [] d = tt
  find_listed ((n, p) ∷ ps) d =
      (rw (same_text_refl n), find_behind n p ps ps d.0 (find_listed ps d.1))
