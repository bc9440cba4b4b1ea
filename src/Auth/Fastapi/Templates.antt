-- ===== src/Auth/Fastapi/Templates.antt =====
-- The paths of FastAPI and the templates that `_fastapi_path_to_template` makes of them.
use mlflow_integration.Shared.{
  String, Bool, true, false, ◌||◌, List, [], ◌∷◌, ℕ, ◌≡◌, refl, ap, sym, subst, ◌∙◌,
}
use mlflow_integration.Shared.Text.{nonempty, starts_with, has_infix}
use mlflow_integration.Shared.Splitting.{Lacks}
use mlflow_integration.Auth.Templates.Pieces.{
  Piece, plain_text, one_segment, many_segments, printed,
}
use mlflow_integration.Auth.Fastapi.{
  before_colon, after_colon, replace_token, beside, behind, advance, template_from,
  fastapi_path_to_template,
}
use mlflow_integration.Auth.PathParams.Printing.{prefix_lem}
use Prim.Native.Char.{Char}
use Prim.Native.String
use Prim.Native.String.{[], ◌∷◌}
use text.Mathlib.TextLemmas.{nil-append, cons-append, append-nil, append_assoc}

-- A parameter is `{name}` or `{name:path}`.
abbrev pub braced : List Piece → String
braced [] = ""
braced (plain_text t ∷ pieces) = String.◌++◌ t (braced pieces)
braced (one_segment name ∷ pieces) = "{" ∷ String.◌++◌ name ("}" ∷ braced pieces)
braced (many_segments name ∷ pieces) =
    "{" ∷ String.◌++◌ (String.◌++◌ name ":path") ("}" ∷ braced pieces)

-- No text has a `{`, and a name is not empty and has neither a `}` nor a colon.
abbrev pub IsBraced : List Piece → Type 0
IsBraced [] = Unit
IsBraced (plain_text t ∷ pieces) = Lacks b'{' t × IsBraced pieces
IsBraced (one_segment name ∷ pieces) =
    (nonempty name ≡ true) × Lacks b'}' name × Lacks b':' name × IsBraced pieces
IsBraced (many_segments name ∷ pieces) =
    (nonempty name ≡ true) × Lacks b'}' name × Lacks b':' name × IsBraced pieces

single : (c : Char) (s : String) → String.◌++◌ (c ∷ "") s ≡ c ∷ s
single c s = cons-append c "" s ∙ ap (λ t. c ∷ t) (nil-append s)

bracketed :
    (name s : String)
    → String.◌++◌ (String.◌++◌ "<" (String.◌++◌ name ">")) s ≡ "<" ∷ String.◌++◌ name (">" ∷ s)
bracketed name s =
    append_assoc "<" (String.◌++◌ name ">") s
    ∙ (single "<" (String.◌++◌ (String.◌++◌ name ">") s)
        ∙ ap (λ t. "<" ∷ t) (append_assoc name ">" s ∙ ap (λ t. String.◌++◌ name t) (single ">" s)))

scan-plain :
    (t s : String)
    → Lacks b'{' t
    → template_from beside (String.◌++◌ t s) ≡ String.◌++◌ t (template_from beside s)
unfolding template_from advance
scan-plain [] s h = rw (nil-append, nil-append) refl
scan-plain (c ∷ t) s (h, hs) =
    rw (cons-append c t s, cons-append c t (template_from beside s), h)
      (single c (template_from beside (String.◌++◌ t s)) ∙ ap (λ u. c ∷ u) (scan-plain t s hs))

scan-name :
    (name token s : String)
    → Lacks b'}' name
    → template_from (behind token) (String.◌++◌ name ("}" ∷ s))
      ≡ String.◌++◌ (replace_token (String.◌++◌ token name)) (template_from beside s)
unfolding template_from advance
scan-name [] token s h = rw (nil-append, append-nil) refl
scan-name (c ∷ name) token s (h, hs) =
    rw (cons-append, h)
      (nil-append (template_from (behind (String.◌++◌ token (c ∷ ""))) (String.◌++◌ name ("}" ∷ s)))
        ∙ (scan-name name (String.◌++◌ token (c ∷ "")) s hs
            ∙ ap (λ t. String.◌++◌ (replace_token t) (template_from beside s))
                (append_assoc token (c ∷ "") name ∙ ap (λ t. String.◌++◌ token t) (single c name))))

no_colon : (name : String) → Lacks b':' name → has_infix name ":" ≡ false
unfolding has_infix starts_with
no_colon [] h = refl
no_colon (c ∷ name) (h, hs) = rw (h, no_colon name hs) refl

module _ (s : String) where
  colon : (name : String) → has_infix (String.◌++◌ name (":" ∷ s)) ":" ≡ true
  unfolding has_infix starts_with
  colon [] = rw nil-append refl
  colon (c ∷ name) = rw (cons-append, colon name) (either _)
    where
      either : (b : Bool) → (b || true) ≡ true
      either true = refl
      either false = refl

  before_colon-append :
      (name : String) → Lacks b':' name → before_colon (String.◌++◌ name (":" ∷ s)) ≡ name
  unfolding before_colon
  before_colon-append [] h = rw nil-append refl
  before_colon-append (c ∷ name) (h, hs) =
      rw (cons-append, h) (ap (λ t. c ∷ t) (before_colon-append name hs))

  after_colon-append :
      (name : String) → Lacks b':' name → after_colon (String.◌++◌ name (":" ∷ s)) ≡ s
  unfolding after_colon
  after_colon-append [] h = rw nil-append refl
  after_colon-append (c ∷ name) (h, hs) = rw (cons-append, h) (after_colon-append name hs)

Lacks-append : (n : ℕ) (s t : String) → Lacks n s → Lacks n t → Lacks n (String.◌++◌ s t)
Lacks-append n [] t h k = subst (Lacks n) (sym (nil-append t)) k
Lacks-append n (c ∷ s) t (h, hs) k =
    subst (Lacks n) (sym (cons-append c s t)) (h, Lacks-append n s t hs k)

replace_token-plain :
    (token : String)
    → nonempty token ≡ true
    → has_infix token ":" ≡ false
    → replace_token token ≡ String.◌++◌ "<" (String.◌++◌ token ">")
unfolding replace_token nonempty
replace_token-plain [] n h = cc
replace_token-plain (c ∷ token) n h = rw h refl

replace_token-colon :
    (token : String)
    → nonempty token ≡ true
    → has_infix token ":" ≡ true
    → replace_token token
      ≡ String.◌++◌ "<"
          (String.◌++◌ (after_colon token) (String.◌++◌ ":" (String.◌++◌ (before_colon token) ">")))
unfolding replace_token nonempty
replace_token-colon [] n h = cc
replace_token-colon (c ∷ token) n h = rw h refl

nonempty-append : (s t : String) → nonempty s ≡ true → nonempty (String.◌++◌ s t) ≡ true
unfolding nonempty
nonempty-append [] t h = cc
nonempty-append (c ∷ s) t h = rw cons-append refl

replace_token-path :
    (name : String)
    → nonempty name ≡ true
    → Lacks b':' name
    → replace_token (String.◌++◌ name ":path")
      ≡ String.◌++◌ "<" (String.◌++◌ (String.◌++◌ "path:" name) ">")
replace_token-path name n h =
    replace_token-colon (String.◌++◌ name ":path") (nonempty-append name ":path" n)
      (colon "path" name)
    ∙ (ap
          (λ t. String.◌++◌ "<" (
            String.◌++◌ t
              (String.◌++◌ ":" (String.◌++◌ (before_colon (String.◌++◌ name ":path")) ">"))))
          (after_colon-append "path" name h)
        ∙ (ap (λ t. String.◌++◌ "<" (String.◌++◌ "path" (String.◌++◌ ":" (String.◌++◌ t ">"))))
              (before_colon-append "path" name h)
            ∙ (ap (λ t. String.◌++◌ "<" t) (sym (append_assoc "path" ":" (String.◌++◌ name ">")))
                ∙ ap (λ t. String.◌++◌ "<" t) (sym (append_assoc "path:" name ">")))))

-- `_fastapi_path_to_template` turns the parameters of a FastAPI path into those of a template, and leaves its texts alone,
-- if no text has an opening brace and the names are not empty and have neither a closing brace nor a colon.
pub fastapi_path_to_template-braced :
    (pieces : List Piece)
    → IsBraced pieces
    → fastapi_path_to_template (braced pieces) ≡ printed pieces
unfolding fastapi_path_to_template template_from advance
fastapi_path_to_template-braced [] h = refl
fastapi_path_to_template-braced (plain_text t ∷ pieces) (h, hs) =
    scan-plain t (braced pieces) h
    ∙ ap (λ s. String.◌++◌ t s) (fastapi_path_to_template-braced pieces hs)
fastapi_path_to_template-braced (one_segment name ∷ pieces) (n, h, k, hs) =
    nil-append _
    ∙ (scan-name name "" (braced pieces) h
        ∙ (ap (λ t. String.◌++◌ t (fastapi_path_to_template (braced pieces)))
              (ap replace_token (nil-append name) ∙ replace_token-plain name n (no_colon name k))
            ∙ (bracketed name (fastapi_path_to_template (braced pieces))
                ∙ ap (λ s. "<" ∷ String.◌++◌ name (">" ∷ s))
                    (fastapi_path_to_template-braced pieces hs))))
fastapi_path_to_template-braced (many_segments name ∷ pieces) (n, h, k, hs) =
    nil-append _
    ∙ (scan-name (String.◌++◌ name ":path") "" (braced pieces)
          (Lacks-append b'}' name ":path" h (refl, (refl, (refl, (refl, (refl, tt))))))
        ∙ (ap (λ t. String.◌++◌ t (fastapi_path_to_template (braced pieces)))
              (ap replace_token (nil-append (String.◌++◌ name ":path"))
                ∙ replace_token-path name n k)
            ∙ (bracketed (String.◌++◌ "path:" name) (fastapi_path_to_template (braced pieces))
                ∙ (ap (λ t. "<" ∷ t)
                      (append_assoc "path:" name (">" ∷ fastapi_path_to_template (braced pieces))
                        ∙ prefix_lem
                            (String.◌++◌ name (">" ∷ fastapi_path_to_template (braced pieces))))
                    ∙ ap (λ s. "<" ∷ "p" ∷ "a" ∷ "t" ∷ "h" ∷ ":" ∷ String.◌++◌ name (">" ∷ s))
                        (fastapi_path_to_template-braced pieces hs)))))
