-- ===== src/Math/Frame/Lookup.antt =====
-- The lookup of a frame finds each frame that there is.
use eeros_framework.Base.{
  ℕ, ◌≡◌, ◌≢◌, refl, sym, ap, ap₂, subst, ◌∙◌, inl, inr, arith, none, some, true, false, not, ◌&&◌,
  ◌==◌, ==_iff, Bool-cases, List, [], ◌∷◌, ◌++◌, Store, update, update_self, elem, ◌||◌,
  Option-cases, Result, ok, throw, frame_exists, incompatible_frames,
}
use eeros_framework.Math.Ring.{Ring}
use eeros_framework.Math.Matrix.Algebra.{multiply}
use eeros_framework.Math.Frame.{
  Frame, Frames, find_frame, get_frame, create, remove, destroy, set, times,
}

elem-append : (x y : ℕ) (ys : List ℕ) → elem y (ys ++ (x ∷ [])) ≡ (elem y ys || (y == x))
elem-append x y [] = ground arith
elem-append x y (z ∷ zs) = ground (arith, elem-append x y zs)

elem-remove : (x y : ℕ) (ys : List ℕ) → elem y (remove x ys) ≡ (elem y ys && not (y == x))
unfolding remove
elem-remove x y [] = ground arith
elem-remove x y (z ∷ zs) = ground (arith, elem-remove x y zs)

fresh_ne : (x f : ℕ) (fs : List ℕ) → elem x fs ≡ false → elem f fs ≡ true → x ≢ f
fresh_ne x f fs n m e = ground (arith, ap (λ y. elem y fs) e)

module _ {T : Type 0} where
  -- What the program does to the frames. An object is made at an address where there is no other
  -- one.
  pub data Step (r : Ring T) (w : Frames T) : Frames T → Type 0 where
    created :
        (x a b : ℕ) (t : Store T) (w' : Frames T)
        → elem x w.list ≡ false
        → create x a b t w ≡ ok w'
        → Step r w w'
    multiplied :
        (x left right : ℕ) (junk : Store T) (w' : Frames T)
        → elem x w.list ≡ false
        → times r x left right junk w ≡ ok w'
        → Step r w w'
    destroyed : (x : ℕ) → Step r w (destroy x w)
    assigned : (x : ℕ) (t : Store T) → Step r w (set x t w)

  pub data Steps (r : Ring T) (w : Frames T) : Frames T → Type 0 where
    here : Steps r w w
    then_step : (w' w'' : Frames T) → Steps r w w' → Step r w' w'' → Steps r w w''

  -- The lookup with its two systems finds each listed frame.
  abbrev pub IsIndexed : Frames T → Type 0
  IsIndexed w = (x : ℕ) → elem x w.list ≡ true → get_frame (w.heap x).from (w.heap x).to w ≡ some x

  find_frame-append :
      (h : Store (Frame T)) (a b : ℕ) (fs : List ℕ) (x f : ℕ)
      → find_frame h a b fs ≡ some f
      → find_frame h a b (fs ++ (x ∷ [])) ≡ some f
  unfolding find_frame
  find_frame-append h a b [] x f e = absurd (cc)
  find_frame-append h a b (g ∷ gs) x f e = ground (arith, find_frame-append h a b gs x f)

  find_frame-append_none :
      (h : Store (Frame T)) (a b : ℕ) (fs : List ℕ) (x : ℕ)
      → find_frame h a b fs ≡ none
      → (h x).from ≡ a
      → (h x).to ≡ b
      → find_frame h a b (fs ++ (x ∷ [])) ≡ some x
  unfolding find_frame
  find_frame-append_none h a b [] x e p q = ground (arith, p, q)
  find_frame-append_none h a b (g ∷ gs) x e p q = ground (arith, find_frame-append_none h a b gs x)

  -- Another object, or another matrix, changes no lookup.
  find_frame_congr :
      (h h' : Store (Frame T)) (a b : ℕ) (fs : List ℕ)
      → ((f : ℕ) → elem f fs ≡ true → ((h' f).from ≡ (h f).from) × ((h' f).to ≡ (h f).to))
      → find_frame h' a b fs ≡ find_frame h a b fs
  unfolding find_frame
  find_frame_congr h h' a b [] s = refl
  find_frame_congr h h' a b (g ∷ gs) s =
      let (p, q) = s g (ground arith) in
      rw (p, q, find_frame_congr h h' a b gs (λ f m. s f (ground arith))) refl

  find_frame-remove :
      (h : Store (Frame T)) (a b x f : ℕ) (fs : List ℕ)
      → f ≢ x
      → find_frame h a b fs ≡ some f
      → find_frame h a b (remove x fs) ≡ some f
  unfolding find_frame remove
  find_frame-remove h a b x f [] n e = absurd (cc)
  find_frame-remove h a b x f (g ∷ gs) n e = ground (arith, find_frame-remove h a b x f gs n)

  -- The systems of the objects, if the one that is written keeps its own.
  update-same :
      (h : Store (Frame T)) (x : ℕ) (v : Frame T) (f : ℕ)
      → (x ≡ f → (v.from ≡ (h f).from) × (v.to ≡ (h f).to))
      → ((update h x v f).from ≡ (h f).from) × ((update h x v f).to ≡ (h f).to)
  update-same h x v f k = elim (Bool-cases (x == f)) [
    | inl e ↦ rw e (k ((==_iff x f).0 e))
    | inr e ↦ rw e (refl, refl)
  ]

  added-IsIndexed :
      (x : ℕ) (v : Frame T) (w : Frames T)
      → elem x w.list ≡ false
      → get_frame v.from v.to w ≡ none
      → IsIndexed w
      → IsIndexed (record { heap = update w.heap x v; list = w.list ++ (x ∷ []) })
  unfolding get_frame
  added-IsIndexed x v w n e p y m =
      let h' = update w.heap x v in
      let same : (f : ℕ)
          → elem f w.list ≡ true
          → ((h' f).from ≡ (w.heap f).from) × ((h' f).to ≡ (w.heap f).to) =
        λ f k. update-same w.heap x v f (λ e. absurd (fresh_ne x f w.list n k e)) in
      elim (Bool-cases (y == x)) [
        | inl f ↦
            let here : y ≡ x = (==_iff y x).0 f in
            ap (λ z. find_frame h' (h' z).from (h' z).to (w.list ++ (x ∷ []))) here
            ∙ find_frame-append_none h' (h' x).from (h' x).to w.list x
                (find_frame_congr w.heap h' (h' x).from (h' x).to w.list same
                  ∙ ap (λ (g : Frame T). find_frame w.heap g.from g.to w.list)
                      (update_self w.heap x v)
                  ∙ e)
                refl refl
            ∙ ap some (sym here)
        | inr f ↦
            let old : elem y w.list ≡ true = ground (arith, elem-append x y w.list) in
            find_frame-append h' (h' y).from (h' y).to w.list x y (
              ap₂ (λ a b. find_frame h' a b w.list) (same y old).0 (same y old).1
              ∙ find_frame_congr w.heap h' (w.heap y).from (w.heap y).to w.list same
              ∙ p y old)
      ]

  refused : {w' : Frames T} {r : Result (Frames T)} → r ≡ throw frame_exists → r ≡ ok w' → ⊥
  refused e f = cc

  incompatible :
      {w' : Frames T} {r : Result (Frames T)} → r ≡ throw incompatible_frames → r ≡ ok w' → ⊥
  incompatible e f = cc

  create-IsIndexed :
      (x a b : ℕ) (t : Store T) (w w' : Frames T)
      → elem x w.list ≡ false
      → create x a b t w ≡ ok w'
      → IsIndexed w
      → IsIndexed w'
  unfolding create
  create-IsIndexed x a b t w w' n e p = elim (Option-cases (get_frame a b w)) [
    | inl none_there ↦
        let v : Frame T = record { from = a; to = b; t = t } in
        let u : Frames T = record { heap = update w.heap x v; list = w.list ++ (x ∷ []) } in
        let made : ok u ≡ ok w' = sym (rw (none_there, create) refl) ∙ e in
        let same : u ≡ w' = cc in subst IsIndexed same (added-IsIndexed x v w n none_there p)
    | inr (f, there) ↦ absurd (refused (rw (there, create) refl) e)
  ]

  destroy-IsIndexed : (x : ℕ) (w : Frames T) → IsIndexed w → IsIndexed (destroy x w)
  unfolding destroy get_frame
  destroy-IsIndexed x w p y m =
      let here = elem-remove x y w.list in
      find_frame-remove w.heap (w.heap y).from (w.heap y).to x y w.list (ground (arith, here))
        (p y (ground (arith, here)))

  set-IsIndexed : (x : ℕ) (t : Store T) (w : Frames T) → IsIndexed w → IsIndexed (set x t w)
  unfolding set get_frame
  set-IsIndexed x t w p y m =
      let h' = update w.heap x (record (w.heap x) { t = t }) in
      let same : (f : ℕ) → ((h' f).from ≡ (w.heap f).from) × ((h' f).to ≡ (w.heap f).to) = λ f.
        update-same w.heap x (record (w.heap x) { t = t }) f
          (λ e. (ap (λ g. (w.heap g).from) e, ap (λ g. (w.heap g).to) e)) in
      ap₂ (λ a b. find_frame h' a b w.list) (same y).0 (same y).1
      ∙ find_frame_congr w.heap h' (w.heap y).from (w.heap y).to w.list (λ f k. same f)
      ∙ p y m

  times-IsIndexed :
      (r : Ring T) (x left right : ℕ) (junk : Store T) (w w' : Frames T)
      → elem x w.list ≡ false
      → times r x left right junk w ≡ ok w'
      → IsIndexed w
      → IsIndexed w'
  unfolding times
  times-IsIndexed r x left right junk w w' n e p =
      elim (Bool-cases ((w.heap left).to == (w.heap right).from)) [
        | inl f ↦
            create-IsIndexed x (w.heap left).from (w.heap right).to
              (multiply r 4 4 4 (w.heap left).t (w.heap right).t junk) w w' n
              (sym (rw (f, times) refl) ∙ e) p
        | inr f ↦ absurd (incompatible (rw (f, times) refl) e)
      ]

  Step-IsIndexed : (r : Ring T) (w w' : Frames T) → Step r w w' → IsIndexed w → IsIndexed w'
  Step-IsIndexed r w _ (created x a b t w' n e) p = create-IsIndexed x a b t w w' n e p
  Step-IsIndexed r w _ (multiplied x left right junk w' n e) p =
      times-IsIndexed r x left right junk w w' n e p
  Step-IsIndexed r w _ (destroyed x) p = destroy-IsIndexed x w p
  Step-IsIndexed r w _ (assigned x t) p = set-IsIndexed x t w p

  Steps-IsIndexed : (r : Ring T) (w w' : Frames T) → Steps r w w' → IsIndexed w → IsIndexed w'
  Steps-IsIndexed r w _ here p = p
  Steps-IsIndexed r w _ (then_step v w' s t) p = Step-IsIndexed r v w' t (Steps-IsIndexed r w v s p)

  -- Whatever frames a program makes, multiplies, assigns and destroys, the lookup with the two
  -- systems of a frame that is listed finds that frame, and so no two listed frames are between the
  -- same systems.
  pub get_frame-Steps :
      (r : Ring T) (h : Store (Frame T)) (w : Frames T) (x y : ℕ)
      → Steps r (record { heap = h; list = [] }) w
      → elem x w.list ≡ true
      → elem y w.list ≡ true
      → (get_frame (w.heap x).from (w.heap x).to w ≡ some x)
        × ((w.heap x).from ≡ (w.heap y).from → (w.heap x).to ≡ (w.heap y).to → x ≡ y)
  get_frame-Steps r h w x y s m m' =
      let p = Steps-IsIndexed r (record { heap = h; list = [] }) w s (λ y m. absurd (cc)) in
      (
        p x m,
        λ e f.
            let same : some x ≡ some y = sym (p x m) ∙ ap₂ (λ a b. get_frame a b w) e f ∙ p y m' in
            cc,
      )
