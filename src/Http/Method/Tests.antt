-- ===== src/Http/Method/Tests.antt =====
-- Method conversions at a concrete verb type.
use menagerie.Prelude.{ℕ, ◌+◌, ◌≡◌, arith, ◌==◌, ==_iff}
use menagerie.Http.Method.{
  HttpMethod, unknown, get, post, put, patch, del, head, options, index, Verbs, known_methods,
  method_from_beast, method_to_beast,
}
use menagerie.Http.Method.Laws.{
  IsFaithful, method_from_beast-method_to_beast, method_from_beast-eq-unknown_iff,
}

abbrev numbered : Verbs ℕ
numbered = record { same = ◌==◌; verb = λ m. index m + 10 }

numbered-IsFaithful : IsFaithful numbered
numbered-IsFaithful = (==_iff, λ m n e. injective m n (omega arith))
  where
    injective : (m n : HttpMethod) → index m ≡ index n → m ≡ n
    injective = menagerie.Http.Method.Laws.index_injective
