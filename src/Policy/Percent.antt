-- ===== src/Policy/Percent.antt =====
-- `_normalize_percent_encoding` of canonicalize.py. The index loop is a recursion on the text left:
-- its errors are raised from left to right, and an escape takes three characters.
use pent_ai.Prelude.{
  ℕ, ◌+◌, ◌-◌, ◌*◌, ◌≡◌, refl, subst, inl, inr, Bool, true, false, not, ◌&&◌, ◌||◌, [], ◌∷◌, arith,
  ◌==◌, nat_eq, if◌then◌else◌, leb, Text, Bool-cases, Result, ok, err, ◌>>=◌, >>=-eq-ok,
  Result-cases, ==-refl, ◌↔◌,
}

pub data PercentError : Type 0 where
  malformed separator_encoded : PercentError

abbrev pub percent : ℕ
percent = b'%'

is_digit : ℕ → Bool
is_digit c = leb b'0' c && leb c b'9'

is_upper_hex : ℕ → Bool
is_upper_hex c = leb b'A' c && leb c b'F'

is_lower_hex : ℕ → Bool
is_lower_hex c = leb b'a' c && leb c b'f'

-- `_HEX`
unfoldable pub is_hex : ℕ → Bool
unfolding is_digit is_upper_hex is_lower_hex
is_hex c = is_digit c || (is_lower_hex c || is_upper_hex c)

-- The value of a hexadecimal digit, as `int(_, 16)` reads it.
unfoldable pub hex_value : ℕ → ℕ
unfolding is_digit is_lower_hex
hex_value c = if is_digit c then c - 48 else if is_lower_hex c then c - 87 else c - 55

-- `str.upper` on a hexadecimal digit
unfoldable pub upper_hex : ℕ → ℕ
unfolding is_lower_hex
upper_hex c = if is_lower_hex c then c - 32 else c

-- `_UNRESERVED`
unfoldable pub is_unreserved : ℕ → Bool
unfolding is_digit
is_unreserved c =
    (leb b'A' c && leb c b'Z')
    || ((leb b'a' c && leb c b'z')
        || (is_digit c || (c == b'-' || (c == b'.' || (c == b'_' || c == b'~')))))

-- `chr(int(encoded[1:], 16))`
unfoldable pub decoded : ℕ → ℕ → ℕ
unfolding hex_value
decoded a b = hex_value a * 16 + hex_value b

-- `decoded in {"/", "\\", "%"}`
unfoldable pub is_separator : ℕ → Bool
is_separator c = c == b'/' || (c == b'\\' || c == percent)

abbrev prepend : ℕ → Result PercentError Text → Result PercentError Text
prepend c rest = rest >>= λ s. ok (c ∷ s)

-- What the loop appends for the escape `%ab`, in front of what it makes of the rest.
escape : Bool → ℕ → ℕ → Result PercentError Text → Result PercentError Text
escape path a b rest =
    if not (is_hex a && is_hex b)
    then err malformed
    else if path && is_separator (decoded a b)
    then err separator_encoded
    else if is_unreserved (decoded a b)
    then prepend (decoded a b) rest
    else prepend percent (prepend (upper_hex a) (prepend (upper_hex b) rest))

unfoldable pub normalize_percent : Bool → Text → Result PercentError Text
unfolding escape is_hex decoded is_separator is_unreserved upper_hex
normalize_percent path [] = ok []
normalize_percent path (c ∷ []) = if c == percent then err malformed else ok (c ∷ [])
normalize_percent path (c ∷ a ∷ []) =
    let rest = normalize_percent path (a ∷ []) in
    if c == percent then err malformed else prepend c rest
normalize_percent path (c ∷ a ∷ b ∷ s) =
    let jump = normalize_percent path s in
    let rest = normalize_percent path (a ∷ b ∷ s) in
    if c == percent then escape path a b jump else prepend c rest

-- The texts in normal form: every escape is complete, in upper case, of a character that has to be
-- escaped, and, in a path, of none that reads as a separator.
abbrev pub IsEscape : Bool → ℕ → ℕ → Type 0
IsEscape path a b =
    ((is_hex a && is_hex b) ≡ true)
    × ((path && is_separator (decoded a b)) ≡ false)
    × (is_unreserved (decoded a b) ≡ false)
    × (upper_hex a ≡ a)
    × (upper_hex b ≡ b)

pub data IsNormal (path : Bool) : Text → Type 0 where
  end : IsNormal path []
  plain : {c : ℕ} {s : Text} → (c == percent) ≡ false → IsNormal path s → IsNormal path (c ∷ s)
  escaped :
      {c a b : ℕ} {s : Text}
      → (c == percent) ≡ true
      → IsEscape path a b
      → IsNormal path s
      → IsNormal path (c ∷ a ∷ b ∷ s)

and_left : (p q : Bool) → (p && q) ≡ true → p ≡ true
and_left p q h = ground arith

and_right : (p q : Bool) → (p && q) ≡ true → q ≡ true
and_right p q h = ground arith

-- Upper case keeps a digit's value.
hex_upper :
    (a : ℕ)
    → is_hex a ≡ true
    → (is_hex (upper_hex a) ≡ true)
      × (hex_value (upper_hex a) ≡ hex_value a)
      × (upper_hex (upper_hex a) ≡ upper_hex a)
unfolding is_hex hex_value upper_hex
hex_upper a h = ground arith

upper_IsEscape :
    (path : Bool) (a b : ℕ)
    → (is_hex a && is_hex b) ≡ true
    → (path && is_separator (decoded a b)) ≡ false
    → is_unreserved (decoded a b) ≡ false
    → IsEscape path (upper_hex a) (upper_hex b)
unfolding decoded
upper_IsEscape path a b h sep kept =
    let p = and_left (is_hex a) (is_hex b) h in
    let q = and_right (is_hex a) (is_hex b) h in
    let (ha, va, ua) = hex_upper a p in
    let (hb, vb, ub) = hex_upper b q in
    let e : decoded (upper_hex a) (upper_hex b) ≡ decoded a b = rw (va, vb) in
    (rw (ha, hb), rw e sep, rw e kept, ua, ub)

-- An unreserved character is no percent sign.
unreserved_plain : (c : ℕ) → is_unreserved c ≡ true → (c == percent) ≡ false
unfolding is_unreserved
unreserved_plain c h = ground arith

normalize_plain :
    (path : Bool) (c : ℕ) (s : Text)
    → (c == percent) ≡ false
    → normalize_percent path (c ∷ s) ≡ prepend c (normalize_percent path s)
unfolding normalize_percent
normalize_plain path c [] h = rw h
normalize_plain path c (a ∷ []) h = rw h
normalize_plain path c (a ∷ b ∷ s) h = rw h

normalize_escape :
    (path : Bool) (c a b : ℕ) (s : Text)
    → (c == percent) ≡ true
    → normalize_percent path (c ∷ a ∷ b ∷ s) ≡ escape path a b (normalize_percent path s)
unfolding normalize_percent
normalize_escape path c a b s h = rw h

escape-IsEscape :
    (path : Bool) (a b : ℕ) (s : Text)
    → IsEscape path a b
    → escape path a b (ok s) ≡ ok (percent ∷ a ∷ b ∷ s)
unfolding escape
escape-IsEscape path a b s (hex, sep, un, ua, ub) = rw (hex, sep, un, ua, ub)

-- A normal text is its own normal form.
normalize_percent-fixed :
    (path : Bool) {s : Text} → IsNormal path s → normalize_percent path s ≡ ok s
unfolding normalize_percent
normalize_percent-fixed path end = refl
normalize_percent-fixed path (plain {c = c} {s = s} h n) =
    rw (normalize_plain path c s h, normalize_percent-fixed path n)
normalize_percent-fixed path (escaped {c = c} {a = a} {b = b} {s = s} h e n) =
    rw
      (
        normalize_escape path c a b s h,
        normalize_percent-fixed path n,
        escape-IsEscape path a b s e,
      )
      (ground (arith, h))

escape_err :
    (path : Bool) (a b : ℕ) (x : PercentError) (w : Text) → ¬ (escape path a b (err x) ≡ ok w)
unfolding escape
escape_err path a b x w h = ground arith

-- What the loop appends for an escape in front of a normal text makes a normal text.
escape-IsNormal :
    (path : Bool) (a b : ℕ) (s w : Text)
    → IsNormal path s
    → escape path a b (ok s) ≡ ok w
    → IsNormal path w
unfolding escape
escape-IsNormal path a b s w n h = elim (Bool-cases (is_hex a && is_hex b)) [
  | inr e ↦ absurd (ground arith)
  | inl hex ↦ elim (Bool-cases (path && is_separator (decoded a b))) [
    | inl e ↦ absurd (ground arith)
    | inr sep ↦ elim (Bool-cases (is_unreserved (decoded a b))) [
      | inl un ↦
          let q : decoded a b ∷ s ≡ w = ground arith in
          subst (IsNormal path) q (plain (unreserved_plain _ un) n)
      | inr kept ↦
          let q : percent ∷ upper_hex a ∷ upper_hex b ∷ s ≡ w = ground arith in
          subst (IsNormal path) q
            (escaped (==-refl percent) (upper_IsEscape path a b hex sep kept) n)
    ]
  ]
]

abbrev Normalizes : Bool → Text → Type 0
Normalizes path s = (v : Text) → normalize_percent path s ≡ ok v → IsNormal path v

plain-IsNormal :
    (path : Bool) (c : ℕ) (s w : Text)
    → (c == percent) ≡ false
    → Normalizes path s
    → normalize_percent path (c ∷ s) ≡ ok w
    → IsNormal path w
plain-IsNormal path c s w h ih e =
    let (v, n, q) = >>=-eq-ok (normalize_percent path s) _ (rw (normalize_plain path c s h) at e) in
    let q' : c ∷ v ≡ w = ground arith in subst (IsNormal path) q' (plain h (ih v n))

escaped-IsNormal :
    (path : Bool) (c a b : ℕ) (s w : Text)
    → (c == percent) ≡ true
    → Normalizes path s
    → normalize_percent path (c ∷ a ∷ b ∷ s) ≡ ok w
    → IsNormal path w
escaped-IsNormal path c a b s w h ih e = elim (Result-cases (normalize_percent path s)) [
  | inl (v, n) ↦
      escape-IsNormal path a b v w (ih v n) (rw (normalize_escape path c a b s h, n) at e)
  | inr (x, n) ↦ absurd (escape_err path a b x w (rw (normalize_escape path c a b s h, n) at e))
]

-- Whatever is accepted comes out in normal form.
normalize_percent-IsNormal : (path : Bool) (s : Text) → Normalizes path s
unfolding normalize_percent
normalize_percent-IsNormal path [] w h = subst (IsNormal path) (ground arith) end
normalize_percent-IsNormal path (c ∷ []) w h = elim (Bool-cases (c == percent)) [
  | inl e ↦ absurd (ground arith)
  | inr e ↦ plain-IsNormal path c [] w e (normalize_percent-IsNormal path []) h
]
normalize_percent-IsNormal path (c ∷ a ∷ []) w h = elim (Bool-cases (c == percent)) [
  | inl e ↦ absurd (ground arith)
  | inr e ↦ plain-IsNormal path c (a ∷ []) w e (normalize_percent-IsNormal path (a ∷ [])) h
]
normalize_percent-IsNormal path (c ∷ a ∷ b ∷ s) w h = elim (Bool-cases (c == percent)) [
  | inl e ↦ escaped-IsNormal path c a b s w e (normalize_percent-IsNormal path s) h
  | inr e ↦ plain-IsNormal path c (a ∷ b ∷ s) w e (normalize_percent-IsNormal path (a ∷ b ∷ s)) h
]

-- What is accepted comes out in normal form, and the texts in normal form are exactly those that
-- normalisation leaves alone.
pub normalize_percent_canonical :
    (path : Bool) (s w : Text)
    → (normalize_percent path s ≡ ok w → IsNormal path w)
      × (normalize_percent path s ≡ ok s ↔ IsNormal path s)
normalize_percent_canonical path s w = (
  normalize_percent-IsNormal path s w,
  (normalize_percent-IsNormal path s s, λ n. normalize_percent-fixed path n),
)

-- A second pass changes nothing: what normalisation accepts is a fixed point.
pub normalize_percent_idem :
    (path : Bool) (s w : Text) → normalize_percent path s ≡ ok w → normalize_percent path w ≡ ok w
normalize_percent_idem path s w h =
    normalize_percent-fixed path (normalize_percent-IsNormal path s w h)
