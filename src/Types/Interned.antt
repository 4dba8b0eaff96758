-- ===== src/Types/Interned.antt =====
-- The function types of a context: FunctionType::Get of Src/DerivedType.cpp.
use dilithium.Base.{
  ℕ, ◌≡◌, refl, ap, arith, inl, inr, Bool, true, Bool-cases, Option-cases, ◌==◌, subst, some, [],
  ◌∷◌, ◌++◌, All,
}
use dilithium.Cursor.State.{Outcome, ok, fail}
use dilithium.Types.{
  Ty, Types, function_ty, FunctionTypes, find_function, new_function, function_get, keep_function,
  is_valid_return_type, are_valid_arguments,
}

module _ (hash : Ty → Types → Bool → ℕ) where
  -- A function type that the context keeps under the key.
  abbrev pub IsKeyed : ℕ → Ty → Type 0
  IsKeyed h t =
      (v : Bool) × ((r : Ty) × ((ps : Types) × (t ≡ function_ty v r ps)
          × (hash r ps v ≡ h)
          × (is_valid_return_type r ≡ true)
          × (are_valid_arguments ps ≡ true)))

  abbrev pub AreKeyed : FunctionTypes → Type 0
  AreKeyed fs = All (λ (h, t). IsKeyed h t) fs

  All-snoc :
      (P : ℕ × Ty → Type 0) (fs : FunctionTypes) (f : ℕ × Ty)
      → All P fs
      → P f
      → All P (fs ++ (f ∷ []))
  All-snoc P [] f h k = (k, tt)
  All-snoc P (g ∷ fs) f h k = (h.0, All-snoc P fs f h.1 k)

  pub find_function-IsKeyed :
      (h : ℕ) (fs : FunctionTypes) (t : Ty)
      → AreKeyed fs
      → find_function h fs ≡ some t
      → IsKeyed h t
  unfolding find_function
  find_function-IsKeyed h [] t keyed e = absurd (ground (arith, e))
  find_function-IsKeyed h ((k, u) ∷ fs) t keyed e = elim (Bool-cases (k == h)) [
    | inl hit ↦
        let same : u ≡ t = ground (arith, e, hit) in
        let key : k ≡ h = ground (arith, hit) in
        subst (λ z. IsKeyed z t) key (subst (IsKeyed k) same keyed.0)
    | inr miss ↦ find_function-IsKeyed h fs t keyed.1 (ground (arith, e, miss))
  ]

  -- The type that the constructor makes is new.
  pub new_function-some :
      (r : Ty) (ps : Types) (v : Bool) (t : Ty)
      → new_function r ps v ≡ ok t
      → (t ≡ function_ty v r ps) × (is_valid_return_type r ≡ true) × (are_valid_arguments ps ≡ true)
  unfolding new_function
  new_function-some r ps v t e = ground (arith, e)

  pub new_function-IsKeyed :
      (r : Ty) (ps : Types) (v : Bool) (t : Ty)
      → new_function r ps v ≡ ok t
      → IsKeyed (hash r ps v) t
  new_function-IsKeyed r ps v t e =
      let (same, ret, args) = new_function-some r ps v t e in (v, (r, (ps, same, refl, ret, args)))

  added-IsKeyed :
      (h : ℕ) (m : Outcome Ty) (fs fs' : FunctionTypes) (t : Ty)
      → ((u : Ty) → m ≡ ok u → IsKeyed h u)
      → AreKeyed fs
      → keep_function h fs m ≡ ok (t, fs')
      → IsKeyed h t × AreKeyed fs'
  added-IsKeyed h (ok u) fs fs' t new keyed e =
      let same : u ≡ t = ground (arith, e) in
      let kept : fs ++ ((h, u) ∷ []) ≡ fs' = ground (arith, e) in
      (
        subst (IsKeyed h) same (new u refl),
        subst AreKeyed kept (All-snoc (λ (h, t). IsKeyed h t) fs (h, u) keyed (new u refl)),
      )
  added-IsKeyed h (fail f) fs fs' t new keyed e = absurd (ground (arith, e))

  pub function_get-IsKeyed :
      (r : Ty) (ps : Types) (v : Bool) (fs fs' : FunctionTypes) (t : Ty)
      → AreKeyed fs
      → function_get hash r ps v fs ≡ ok (t, fs')
      → IsKeyed (hash r ps v) t × AreKeyed fs'
  unfolding function_get
  function_get-IsKeyed r ps v fs fs' t keyed e =
      elim (Option-cases (find_function (hash r ps v) fs)) [
        | inr (u, hit) ↦
            let same : u ≡ t = ground (arith, e, hit) in
            let kept : fs ≡ fs' = ground (arith, e, hit) in
            let keyed_u : IsKeyed (hash r ps v) u =
              find_function-IsKeyed (hash r ps v) fs u keyed hit in
            (subst (IsKeyed (hash r ps v)) same keyed_u, subst AreKeyed kept keyed)
        | inl miss ↦
            added-IsKeyed (hash r ps v) (new_function r ps v) fs fs' t (new_function-IsKeyed r ps v)
              keyed (ground (arith, e, miss))
      ]

  -- No type that is kept has the key of another.
  abbrev pub IsApart : Ty → Types → Bool → FunctionTypes → Type 0
  IsApart r ps v fs = All (λ (h, t). hash r ps v ≡ h → t ≡ function_ty v r ps) fs

  find_function-IsApart :
      (r : Ty) (ps : Types) (v : Bool) (fs : FunctionTypes) (t : Ty)
      → IsApart r ps v fs
      → find_function (hash r ps v) fs ≡ some t
      → t ≡ function_ty v r ps
  unfolding find_function
  find_function-IsApart r ps v [] t apart e = absurd (ground (arith, e))
  find_function-IsApart r ps v ((k, u) ∷ fs) t apart e = elim (Bool-cases (k == hash r ps v)) [
    | inl hit ↦ ground (arith, e, hit, apart.0 (ground (arith, hit)))
    | inr miss ↦ find_function-IsApart r ps v fs t apart.1 (ground (arith, e, miss))
  ]

  -- FunctionType::Get answers the type that is asked for, and adds at most that type.
  pub function_get-exact :
      (r : Ty) (ps : Types) (v : Bool) (fs : FunctionTypes) (P : ℕ × Ty → Type 0)
      → IsApart r ps v fs
      → is_valid_return_type r ≡ true
      → are_valid_arguments ps ≡ true
      → All P fs
      → P (hash r ps v, function_ty v r ps)
      → (fs' : FunctionTypes) × (function_get hash r ps v fs ≡ ok (function_ty v r ps, fs'))
        × All P fs'
  unfolding function_get new_function
  function_get-exact r ps v fs P apart ret args all new =
      elim (Option-cases (find_function (hash r ps v) fs)) [
        | inr (u, hit) ↦
            let same : u ≡ function_ty v r ps = find_function-IsApart r ps v fs u apart hit in
            (fs, rw (hit, function_get) (ap (λ z. ok (z, fs)) same), all)
        | inl miss ↦ (
          fs ++ ((hash r ps v, function_ty v r ps) ∷ []),
          ground (arith, miss, ret, args),
          All-snoc P fs (hash r ps v, function_ty v r ps) all new,
        )
      ]
