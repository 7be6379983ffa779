-- ===== src/Http/Method/Laws.antt =====
-- Conversions to and from Boost.Beast.
use menagerie.Prelude.{
  ℕ, zero, suc, ◌≡◌, refl, sym, ap, ◌∙◌, ◌↔◌, inl, inr, true, false, arith, ◌==◌, ==_iff,
  Bool-cases, All,
}
use menagerie.Http.Method.{
  HttpMethod, unknown, get, post, put, patch, del, head, options, Verbs, method_from_beast,
  method_to_beast, HttpVersion, http_1_0, http_1_1, http_2, http_3, version_to_beast,
  version_from_beast, index, known_methods,
}

-- The library's test tells its eight enumerators apart.
abbrev pub IsFaithful : {V : Type 0} → Verbs V → Type 0
IsFaithful {V} verbs =
    ((v w : V) → (verbs.same v w ≡ true) ↔ (v ≡ w))
    × ((m n : HttpMethod) → verbs.verb m ≡ verbs.verb n → m ≡ n)

version_round_trip : (v : HttpVersion) → version_from_beast (version_to_beast v) ≡ v
unfolding version_from_beast version_to_beast
version_round_trip http_1_0 = refl
version_round_trip http_1_1 = refl
version_round_trip http_2 = refl
version_round_trip http_3 = refl

of_index : ℕ → HttpMethod
of_index zero = unknown
of_index (suc zero) = get
of_index (suc (suc zero)) = post
of_index (suc (suc (suc zero))) = put
of_index (suc (suc (suc (suc zero)))) = patch
of_index (suc (suc (suc (suc (suc zero))))) = del
of_index (suc (suc (suc (suc (suc (suc zero)))))) = head
of_index _ = options

of_index-index : (m : HttpMethod) → of_index (index m) ≡ m
unfolding of_index
of_index-index unknown = refl
of_index-index get = refl
of_index-index post = refl
of_index-index put = refl
of_index-index patch = refl
of_index-index del = refl
of_index-index head = refl
of_index-index options = refl

-- Two methods with one slot are one method.
pub index_injective : (m n : HttpMethod) → index m ≡ index n → m ≡ n
index_injective m n e = sym (of_index-index m) ∙ (ap of_index e ∙ of_index-index n)

module _ {V : Type 0} (verbs : Verbs V) (faithful : IsFaithful verbs) where
  verb_test : (m n : HttpMethod) → verbs.same (verbs.verb m) (verbs.verb n) ≡ (index m == index n)
  verb_test m n = elim (Bool-cases (index m == index n)) [
    | inl y ↦ rw y (
        (faithful.0 _ _).1 (ap verbs.verb (index_injective m n ((==_iff (index m) (index n)).0 y))))
    | inr k ↦ elim (Bool-cases (verbs.same (verbs.verb m) (verbs.verb n))) [
      | inl y ↦ absurd (ground (arith, ap index (faithful.1 m n ((faithful.0 _ _).0 y))))
      | inr e ↦ rw (k, e)
    ]
  ]

  -- Converting a method to Beast's verb and back gives the method again.
  pub method_from_beast-method_to_beast :
      (m : HttpMethod) → method_from_beast verbs (method_to_beast verbs m) ≡ m
  unfolding method_from_beast method_to_beast
  method_from_beast-method_to_beast get = simp verb_test
  method_from_beast-method_to_beast m = simp verb_test

  -- A verb that is none of the seven that the program serves becomes `unknown`, and no other does.
  pub method_from_beast-eq-unknown_iff :
      (v : V)
      → (method_from_beast verbs v ≡ unknown)
        ↔ All (λ m. verbs.same v (verbs.verb m) ≡ false) known_methods
  unfolding method_from_beast
  method_from_beast-eq-unknown_iff v = (λ e. ground arith, λ h. ground arith)
