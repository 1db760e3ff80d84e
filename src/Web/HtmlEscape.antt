-- ===== src/Web/HtmlEscape.antt =====
-- include/helpers/HtmlEscape.h.
use cppadmin.Base.{
  NoByte-append, ℕ, Bytes, bytes, [], ◌∷◌, ◌++◌, ◌≢◌, nat_beq, if◌then◌else◌, NoByte, All, arith,
}

unfoldable pub escape_byte : ℕ → Bytes
escape_byte c =
    if nat_beq c b'&'
    then bytes "&amp;"
    else if nat_beq c b'<'
    then bytes "&lt;"
    else if nat_beq c b'>'
    then bytes "&gt;"
    else if nat_beq c b'"'
    then bytes "&quot;"
    else if nat_beq c 39
    then bytes "&#39;"
    else c ∷ []

-- `h`
unfoldable pub h : Bytes → Bytes
h [] = []
h (c ∷ s) = escape_byte c ++ h s

unfoldable pub escape_attribute_byte : ℕ → Bytes
escape_attribute_byte c = if nat_beq c b'`' then bytes "&#96;" else escape_byte c

-- `hAttr`
unfoldable pub h_attr : Bytes → Bytes
h_attr [] = []
h_attr (c ∷ s) = escape_attribute_byte c ++ h_attr s

-- The bytes that end a text, a tag or a quoted attribute.
abbrev pub IsClean : Bytes → Type 0
IsClean s = All (λ c. (c ≢ b'<') × (c ≢ b'>') × (c ≢ b'"') × (c ≢ 39)) s

IsClean-append : (s t : Bytes) → IsClean s → IsClean t → IsClean (s ++ t)
IsClean-append [] t p q = q
IsClean-append (c ∷ s) t (n, p) q = (n, IsClean-append s t p q)

escape_byte-IsClean : (c : ℕ) → IsClean (escape_byte c)
unfolding escape_byte bytes
escape_byte-IsClean c = ground arith

escape_attribute_byte-IsClean :
    (c : ℕ) → IsClean (escape_attribute_byte c) × NoByte b'`' (escape_attribute_byte c)
unfolding escape_attribute_byte escape_byte bytes
escape_attribute_byte-IsClean c = ground arith

-- An escaped text has no angle bracket and no quote, and an escaped attribute no backtick either.
pub escape-IsClean : (s : Bytes) → IsClean (h s) × (IsClean (h_attr s) × NoByte b'`' (h_attr s))
unfolding h h_attr
escape-IsClean [] = (tt, (tt, tt))
escape-IsClean (c ∷ s) =
    let (text, (attribute, tick)) = escape-IsClean s in
    let (clean, no_tick) = escape_attribute_byte-IsClean c in
    (
      IsClean-append (escape_byte c) (h s) (escape_byte-IsClean c) text,
      (
        IsClean-append (escape_attribute_byte c) (h_attr s) clean attribute,
        NoByte-append b'`' (escape_attribute_byte c) (h_attr s) no_tick tick,
      ),
    )
