-- ===== src/Auth/Request/QueryParams.antt =====
-- What `_collect_query_params` keeps of a query string.
use mlflow_integration.Shared.{
  String, true, false, ◌⊎◌, Option, none, some, List, [], ◌∷◌, if◌then◌else◌, string_eq, ◌==◌, ◌≡◌,
  refl, sym, ◌∙◌, ap, eq_iff, Bool-cases, inl, inr,
}
use mlflow_integration.Shared.Dict.{Dict, find, put, find-put}
use mlflow_integration.Shared.Json.{Json, text, array, Items, nil, cons}
use mlflow_integration.Auth.Request.{append_item, with_value, collect_into, collect_query_params}

-- The values of a key, in order.
abbrev pub values_of : String → List (String × String) → List String
values_of key [] = []
values_of key ((k, value) ∷ items) =
    let rest = values_of key items in if k == key then value ∷ rest else rest

abbrev pub texts : List String → Items
texts [] = nil
texts (s ∷ values) = cons (text s) (texts values)

-- One value stands for itself, several for a list.
abbrev pub collapsed : List String → Option Json
collapsed [] = none
collapsed (s ∷ []) = some (text s)
collapsed (s ∷ t ∷ values) = some (array (texts (s ∷ t ∷ values)))

-- A parameter with what it has, after more values.
with_values : Option Json → List String → Option Json
with_values current [] = current
with_values current (s ∷ values) = with_values (some (with_value current (text s))) values

append : Items → List String → Items
append nil values = texts values
append (cons v items) values = cons v (append items values)

append-append_item :
    (items : Items) (s : String) (values : List String)
    → append (append_item items (text s)) values ≡ append items (s ∷ values)
unfolding append
append-append_item nil s values = refl
append-append_item (cons v items) s values = ap (cons v) (append-append_item items s values)

append-nil : (items : Items) → append items [] ≡ items
unfolding append
append-nil nil = refl
append-nil (cons v items) = ap (cons v) (append-nil items)

with_values-array :
    (items : Items) (values : List String)
    → with_values (some (array items)) values ≡ some (array (append items values))
unfolding with_values
with_values-array items [] = ap (λ kept. some (array kept)) (sym (append-nil items))
with_values-array items (s ∷ values) =
    with_values-array (append_item items (text s)) values
    ∙ ap (λ kept. some (array kept)) (append-append_item items s values)

with_values-collapsed : (values : List String) → with_values none values ≡ collapsed values
unfolding with_values append
with_values-collapsed [] = refl
with_values-collapsed (s ∷ []) = refl
with_values-collapsed (s ∷ t ∷ values) =
    with_values-array (cons (text s) (cons (text t) nil)) values

-- One item more, in the dict and among the values.
with_values-put :
    (params : Dict String Json) (items : List (String × String)) (k value key : String)
    → with_values
        (find key (put k (with_value (find k params) (text value)) params))
        (values_of key items)
      ≡ with_values (find key params) (values_of key ((k, value) ∷ items))
unfolding with_values
with_values-put params items k value key = rw find-put (by_test (Bool-cases (k == key)))
  where
    by_test :
        (k == key ≡ true) ⊎ (k == key ≡ false)
        → with_values
            (if k == key then some (with_value (find k params) (text value)) else find key params)
            (values_of key items)
          ≡ with_values
              (find key params)
              (if k == key then value ∷ values_of key items else values_of key items)
    by_test (inl t) = rw (t, (eq_iff k key).0 t) refl
    by_test (inr f) = rw f refl

collect_into-values :
    (params : Dict String Json) (items : List (String × String)) (key : String)
    → find key (collect_into params items) ≡ with_values (find key params) (values_of key items)
unfolding collect_into with_values
collect_into-values params [] key = refl
collect_into-values params ((k, value) ∷ items) key =
    collect_into-values (put k (with_value (find k params) (text value)) params) items key
    ∙ with_values-put params items k value key

-- A parameter is there exactly when the query has it; it is the text of its one value, or the list of
-- its values in the order of the query, and no other parameter changes it.
pub find-collect_query_params :
    (items : List (String × String)) (key : String)
    → find key (collect_query_params items) ≡ collapsed (values_of key items)
unfolding collect_query_params find
find-collect_query_params items key =
    collect_into-values [] items key ∙ with_values-collapsed (values_of key items)
