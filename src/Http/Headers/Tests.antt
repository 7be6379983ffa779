-- ===== src/Http/Headers/Tests.antt =====
-- Headers at concrete fields; Beast's fields are stood for by a list.
use menagerie.Prelude.{◌≡◌, refl, some, List, [], ◌∷◌, ◌⊎◌, bytes}
use menagerie.Http.Headers.{
  Field, BeastFields, Headers, owned, first_value, all_values, erase_name, set, get_all,
}
use menagerie.Http.Headers.Laws.{IsBeast, Answers, Alike, set-Answers}

abbrev listed : BeastFields (List Field)
listed = record {
  scan = λ fields. fields;
  find = λ name fields. first_value name fields;
  equal_range = λ name fields. all_values name fields;
}

listed-IsBeast : IsBeast listed
listed-IsBeast = record { finds = λ name fields. refl; ranges = λ name fields. refl }

abbrev sent : List Field
sent = (bytes "Accept", bytes "a") ∷ (bytes "ACCEPT", bytes "b") ∷ (bytes "Host", bytes "h") ∷ []

set_once :
    set {F = List Field} (bytes "accept") (bytes "c") (owned sent)
    ≡ some (owned ((bytes "Host", bytes "h") ∷ (bytes "accept", bytes "c") ∷ []))
unfolding set erase_name
set_once = refl

set-Answers_example :
    (h : Headers (List Field)) × (set (bytes "accept") (bytes "c") (owned sent) ≡ some h)
    × ((Alike (bytes "accept") (bytes "Accept")
          × Answers listed h (bytes "Accept") (bytes "c" ∷ []))
        ⊎ ((¬ Alike (bytes "accept") (bytes "Accept"))
            × Answers listed h (bytes "Accept") (get_all listed (bytes "Accept") (owned sent))))
set-Answers_example = set-Answers listed (bytes "accept") (bytes "c") (bytes "Accept") sent
