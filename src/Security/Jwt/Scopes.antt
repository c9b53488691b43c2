-- ===== src/Security/Jwt/Scopes.antt =====
-- The scopes of a token, as platform_security/jwt.py reads and validates them.
use superoffice_ai_support_m.Common.{
  ◌≡◌, ◌≢◌, refl, sym, ap, ap₂, ◌∙◌, ◌↔◌, Bool, not, ◌&&◌, Option, none, some, List, [], ◌∷◌, ◌++◌,
  map, any, member, Text, strip, ok, >>=-eq-ok, if◌then◌else◌, Json, JsonItems, null, boolean,
  number, text, array, object, end_items, item, Bool-cases, inl, inr,
}
use superoffice_ai_support_m.Security.Jwt.{
  append_scope, validate_scopes, raw_scopes, items_of, is_text,
}

-- Texts as the items of a JSON array.
abbrev pub text_items : List Text → JsonItems
text_items [] = end_items
text_items (t ∷ texts) = item (text t) (text_items texts)

-- The texts that a claim lists: those of an array of texts, and none where the claim is no array.
pub data Lists (claim : Option Json) (given : List Text) : Type 0 where
  listed : claim ≡ some (array (text_items given)) → Lists claim given
  unlisted : ((items : JsonItems) → claim ≢ some (array items)) → given ≡ [] → Lists claim given

-- A scope that is added once, if the flag is set.
abbrev pub with_scope : Text → Bool → List Text → List Text
with_scope name set scopes = if set && not (member name scopes) then scopes ++ name ∷ [] else scopes

validate_scopes_texts : (ts : List Text) → validate_scopes (map text ts) ≡ ok (map strip ts)
unfolding validate_scopes
validate_scopes_texts [] = refl
validate_scopes_texts (t ∷ ts) = rw (validate_scopes_texts ts) refl

validate_scopes_inv :
    (values : List Json) (scopes : List Text)
    → validate_scopes values ≡ ok scopes
    → (ts : List Text) × (values ≡ map text ts)
unfolding validate_scopes
validate_scopes_inv [] scopes h = ([], refl)
validate_scopes_inv (text t ∷ values) scopes h =
    let (rest, e, k) = >>=-eq-ok (validate_scopes values) _ h in
    let (ts, f) = validate_scopes_inv values rest e in
    (t ∷ ts, ap {B = List Json} (λ later. text t ∷ later) f)
validate_scopes_inv (null ∷ values) scopes h = cc h
validate_scopes_inv (boolean b ∷ values) scopes h = cc h
validate_scopes_inv (number n ∷ values) scopes h = cc h
validate_scopes_inv (array items ∷ values) scopes h = cc h
validate_scopes_inv (object fields ∷ values) scopes h = cc h

any-is_text : (name : Text) (ts : List Text) → any (is_text name) (map text ts) ≡ member name ts
unfolding member
any-is_text name [] = refl
any-is_text name (t ∷ ts) = rw (any-is_text name ts) refl

map-append_text : (ts : List Text) (t : Text) → map text ts ++ text t ∷ [] ≡ map text (ts ++ t ∷ [])
map-append_text [] t = refl
map-append_text (u ∷ ts) t = ap {B = List Json} (λ later. text u ∷ later) (map-append_text ts t)

append_scope-with_scope :
    (name : Text) (set : Bool) (ts : List Text)
    → append_scope name set (map text ts) ≡ map text (with_scope name set ts)
unfolding append_scope
append_scope-with_scope name set ts = elim (Bool-cases (set && not (member name ts))) [
  | inl e ↦ rw (append_scope, any-is_text name ts, e) (map-append_text ts name)
  | inr e ↦ rw (append_scope, any-is_text name ts, e) refl
]

-- The values in front of another one are texts too.
texts_prefix :
    (values : List Json) (last : Json) (ts : List Text)
    → values ++ last ∷ [] ≡ map text ts
    → (us : List Text) × (values ≡ map text us)
texts_prefix [] last ts h = ([], refl)
texts_prefix (v ∷ values) last [] h = cc h
texts_prefix (v ∷ values) last (t ∷ ts) h =
    let here : v ≡ text t = cc h in
    let later : values ++ last ∷ [] ≡ map text ts = cc h in
    let (us, e) = texts_prefix values last ts later in (t ∷ us, ap₂ ◌∷◌ here e)

append_scope_texts :
    (name : Text) (set : Bool) (values : List Json) (ts : List Text)
    → append_scope name set values ≡ map text ts
    → (us : List Text) × (values ≡ map text us)
unfolding append_scope
append_scope_texts name set values ts h =
    elim (Bool-cases (set && not (any (is_text name) values))) [
      | inl e ↦ texts_prefix values (text name) ts (rw (append_scope, e) at h)
      | inr e ↦ (ts, rw (append_scope, e) at h)
    ]

items_of-text_items : (given : List Text) → items_of (text_items given) ≡ map text given
items_of-text_items [] = refl
items_of-text_items (t ∷ given) =
    ap {B = List Json} (λ later. text t ∷ later) (items_of-text_items given)

items_of_inv :
    (items : JsonItems) (ts : List Text) → items_of items ≡ map text ts → items ≡ text_items ts
items_of_inv end_items [] h = refl
items_of_inv end_items (t ∷ ts) h = cc h
items_of_inv (item v items) [] h = cc h
items_of_inv (item v items) (t ∷ ts) h =
    let here : v ≡ text t = cc h in
    let later : items_of items ≡ map text ts = cc h in ap₂ item here (items_of_inv items ts later)

map_nil : (ts : List Text) → [] ≡ map text ts → ts ≡ []
map_nil [] h = refl
map_nil (t ∷ ts) h = cc h

raw_scopes-Lists :
    (claim : Option Json) (ts : List Text) → raw_scopes claim ≡ map text ts → Lists claim ts
raw_scopes-Lists (some (array items)) ts h =
    listed (ap {B = Option Json} (λ i. some (array i)) (items_of_inv items ts h))
raw_scopes-Lists none ts h = unlisted (λ items e. cc e) (map_nil ts h)
raw_scopes-Lists (some null) ts h = unlisted (λ items e. cc e) (map_nil ts h)
raw_scopes-Lists (some (boolean b)) ts h = unlisted (λ items e. cc e) (map_nil ts h)
raw_scopes-Lists (some (number n)) ts h = unlisted (λ items e. cc e) (map_nil ts h)
raw_scopes-Lists (some (text t)) ts h = unlisted (λ items e. cc e) (map_nil ts h)
raw_scopes-Lists (some (object fields)) ts h = unlisted (λ items e. cc e) (map_nil ts h)

raw_scopes_no_array :
    (claim : Option Json)
    → ((items : JsonItems) → claim ≢ some (array items))
    → raw_scopes claim ≡ []
raw_scopes_no_array (some (array items)) other = absurd (other items refl)
raw_scopes_no_array none other = refl
raw_scopes_no_array (some null) other = refl
raw_scopes_no_array (some (boolean b)) other = refl
raw_scopes_no_array (some (number n)) other = refl
raw_scopes_no_array (some (text t)) other = refl
raw_scopes_no_array (some (object fields)) other = refl

Lists-raw_scopes :
    (claim : Option Json) (ts : List Text) → Lists claim ts → raw_scopes claim ≡ map text ts
Lists-raw_scopes claim ts (listed e) = rw e (items_of-text_items ts)
Lists-raw_scopes claim ts (unlisted other e) =
    raw_scopes_no_array claim other ∙ ap (λ us. map text us) (sym e)

-- Two flags over the scopes of a claim.
pub validate_scopes_iff :
    (first second : Text) (f g : Bool) (claim : Option Json) (scopes : List Text)
    → (validate_scopes (append_scope second g (append_scope first f (raw_scopes claim)))
        ≡ ok scopes)
      ↔ ((given : List Text) × Lists claim given
          × (scopes ≡ map strip (with_scope second g (with_scope first f given))))
validate_scopes_iff first second f g claim scopes = (
  (λ h.
      let (ts, a) =
        validate_scopes_inv (append_scope second g (append_scope first f (raw_scopes claim))) scopes
          h in
      let (us, b) = append_scope_texts second g (append_scope first f (raw_scopes claim)) ts a in
      let (given, c) = append_scope_texts first f (raw_scopes claim) us b in
      let shown = both given c in
      let k = sym h ∙ shown in (given, raw_scopes-Lists claim given c, cc k)),
  (λ (given, lists, made). rw made (both given (Lists-raw_scopes claim given lists))),
)
  where
    both :
        (given : List Text)
        → raw_scopes claim ≡ map text given
        → validate_scopes (append_scope second g (append_scope first f (raw_scopes claim)))
          ≡ ok (map strip (with_scope second g (with_scope first f given)))
    both given c =
        rw
          (
            c,
            append_scope-with_scope first f given,
            append_scope-with_scope second g (with_scope first f given),
          )
          (validate_scopes_texts (with_scope second g (with_scope first f given)))
