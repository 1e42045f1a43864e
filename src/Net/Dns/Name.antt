-- ===== src/Net/Dns/Name.antt =====
-- Names: skipping an encoded name steps over exactly its bytes, and skipping always ends.
use mathlib.Core.List.{append_assoc}
use gecko_os_mac_compatabili.Common.{
  ℕ, ◌/◌, ◌%◌, ◌*◌, zero, suc, ◌+◌, ◌^◌, ◌≤◌, ◌<◌, ◌≡◌, inl, inr, refl, ap, ◌∙◌, sym, false, List,
  [], ◌∷◌, ◌++◌, some, ltb, leb, ◌==◌, arith, length, bit_and, Option-cases, length-append,
}
use gecko_os_mac_compatabili.Common.Bits.{bit_and-double, bit_and-three}
use gecko_os_mac_compatabili.Net.Bytes.{byte_at}
use gecko_os_mac_compatabili.Net.Dns.{
  take_label, skip_dot, encode_labels, Parse, value, malformed, looping, u16, dns_skip_name,
}

-- The two tag bits of a label's length byte.
tag_bits : (x : ℕ) → bit_and x 0xC0 ≡ x / 64 % 4 * 64
tag_bits x = omega (
  arith,
  bit_and-double x 96,
  bit_and-double (x / 2) 48,
  bit_and-double (x / 2 / 2) 24,
  bit_and-double (x / 2 / 2 / 2) 12,
  bit_and-double (x / 2 / 2 / 2 / 2) 6,
  bit_and-double (x / 2 / 2 / 2 / 2 / 2) 3,
  bit_and-three (x / 2 / 2 / 2 / 2 / 2 / 2),
)

-- A length of at most 63 has no tag bits.
short_label : (x : ℕ) → x < 64 → bit_and x 0xC0 ≡ 0
short_label x h = omega (arith, tag_bits x)

-- A byte with no tag bits is at most 63.
plain_label : (x : ℕ) → x < 256 → bit_and x 0xC0 ≡ 0 → x < 64
plain_label x h e = omega (arith, tag_bits x)

byte_at-append : (pre : List ℕ) (x : ℕ) (rest : List ℕ) → byte_at (pre ++ x ∷ rest) (length pre) ≡ x
byte_at-append [] x rest = refl
byte_at-append (y ∷ pre) x rest = byte_at-append pre x rest

-- The terminating zero.
skip-end :
    (pre rest : List ℕ) (len g : ℕ)
    → length pre < len
    → len < 2 ^ 16
    → dns_skip_name (pre ++ 0 ∷ rest) len (suc g) (length pre) ≡ value (length pre + 1)
unfolding dns_skip_name
skip-end pre rest len g h l =
    let inside : leb len (length pre) ≡ false = ground arith in
    let fits : (length pre + 1) % 2 ^ 16 ≡ length pre + 1 = omega arith in
    rw (byte_at-append pre 0 rest, inside, fits)

-- One label.
skip-label :
    (pre label rest : List ℕ) (len g : ℕ)
    → 0 < length label
    → length label < 64
    → length pre + 1 + length label ≤ len
    → len < 2 ^ 16
    → dns_skip_name (pre ++ (length label ∷ (label ++ rest))) len (suc g) (length pre)
      ≡ dns_skip_name
          (pre ++ (length label ∷ (label ++ rest)))
          len
          g
          (length pre + 1 + length label)
unfolding dns_skip_name
skip-label pre label rest len g pos short h l =
    let fits : (length pre + 1 + length label) % 2 ^ 16 ≡ length pre + 1 + length label =
      omega arith in
    let inside : leb len (length pre) ≡ false = ground arith in
    let some_label : (length label == 0) ≡ false = ground arith in
    let within : ltb len (length pre + 1 + length label) ≡ false = ground arith in
    rw (
      byte_at-append pre (length label) (label ++ rest),
      fits,
      inside,
      some_label,
      short_label (length label) short,
      within,
    )

-- What the encoding of a name that is not empty consists of.
record IsFirst (f : ℕ) (name out : List ℕ) : Type 0 where
  label : List ℕ
  more : List ℕ
  next : List ℕ
  not_empty : 0 < length label
  short : length label < 64
  encoded : encode_labels f next ≡ some more
  shape : out ≡ length label ∷ (label ++ more)

encode_labels-IsFirst :
    (f c : ℕ) (cs out : List ℕ) → encode_labels (suc f) (c ∷ cs) ≡ some out → IsFirst f (c ∷ cs) out
unfolding encode_labels
encode_labels-IsFirst f c cs out e =
    elim (Option-cases (encode_labels f (skip_dot (take_label (c ∷ cs)).1))) [
      | inl none_left ↦ absurd (ground (arith, none_left))
      | inr (more, encoded) ↦ record {
        label = (take_label (c ∷ cs)).0;
        more = more;
        next = skip_dot (take_label (c ∷ cs)).1;
        not_empty = ground (arith, encoded);
        short = ground (arith, encoded);
        encoded = encoded;
        shape = ground (arith, encoded);
      }
    ]

-- Where the labels of a name are encoded, skipping them and the terminating zero at any place of
-- a message of fewer than 2^16 bytes that holds them, with at least the rounds of the encoding,
-- ends right after the zero.
pub dns_skip_name-encode_labels :
    (f g : ℕ) (name pre out rest : List ℕ) (len : ℕ)
    → encode_labels f name ≡ some out
    → f ≤ g
    → length pre + length out < len
    → len < 2 ^ 16
    → dns_skip_name (pre ++ (out ++ 0 ∷ rest)) len g (length pre)
      ≡ value (length pre + length out + 1)
dns_skip_name-encode_labels zero g name pre out rest len e l h b =
    absurd (unfold encode_labels in cc e)
dns_skip_name-encode_labels (suc f) zero name pre out rest len e l h b = absurd (omega arith)
dns_skip_name-encode_labels (suc f) (suc g) [] pre out rest len e l h b =
    let nothing : out ≡ [] = unfold encode_labels in cc e in
    rw nothing (skip-end pre rest len g (omega arith) b ∙ ap value (omega arith))
dns_skip_name-encode_labels (suc f) (suc g) (c ∷ cs) pre out rest len e l h b =
    let v = encode_labels-IsFirst f c cs out e in
    let tail : List ℕ = v.more ++ 0 ∷ rest in
    let size : length out ≡ suc (length v.label + length v.more) =
      ap length v.shape ∙ ap suc (length-append v.label v.more) in
    let pre' : List ℕ = pre ++ (length v.label ∷ v.label) in
    let size' : length pre' ≡ length pre + 1 + length v.label =
      length-append pre (length v.label ∷ v.label) ∙ omega arith in
    let split : pre ++ (out ++ 0 ∷ rest) ≡ pre ++ (length v.label ∷ (v.label ++ tail)) =
      ap (λ (t : List ℕ). pre ++ (t ++ 0 ∷ rest)) v.shape
      ∙ ap (λ (t : List ℕ). pre ++ (length v.label ∷ t)) (append_assoc v.label v.more (0 ∷ rest)) in
    let join : pre ++ (length v.label ∷ (v.label ++ tail)) ≡ pre' ++ tail =
      sym (append_assoc pre (length v.label ∷ v.label) tail) in
    ap (λ (m : List ℕ). dns_skip_name m len (suc g) (length pre)) split
    ∙ skip-label pre v.label tail len g v.not_empty v.short (omega (arith, size)) b
    ∙ ap (λ (m : List ℕ). dns_skip_name m len g (length pre + 1 + length v.label)) join
    ∙ ap (λ (p : ℕ). dns_skip_name (pre' ++ tail) len g p) (sym size')
    ∙ dns_skip_name-encode_labels f g v.next pre' v.more rest len v.encoded (omega arith)
        (omega (arith, size, size')) b
    ∙ ap value (omega (arith, size, size'))

-- A skip from `p` ends, and a position that it returns lies behind `p`, at most one past the message.
abbrev pub Skips : ℕ → ℕ → Parse ℕ → Type 0
Skips p len (value q) = (p < q) × (q ≤ len + 1)
Skips p len malformed = Unit {0}
Skips p len looping = ⊥

Skips-mono : (p q len : ℕ) (r : Parse ℕ) → p ≤ q → Skips q len r → Skips p len r
Skips-mono p q len (value x) h s = (omega arith, omega arith)
Skips-mono p q len malformed h s = tt
Skips-mono p q len looping h s = s

abbrev pub AllBytes : List ℕ → Type 0
AllBytes msg = (i : ℕ) → byte_at msg i < 256

-- On bytes, from a position in a message that ends at least 64 bytes before 2^16, and with
-- rounds for each byte that is left, skipping a name ends: in an error, or at a position behind
-- the start and at most one past the message.
pub dns_skip_name-Skips :
    (msg : List ℕ) (len f p : ℕ)
    → AllBytes msg
    → len + 64 ≤ 2 ^ 16
    → p ≤ len
    → len < p + f
    → Skips p len (dns_skip_name msg len f p)
unfolding dns_skip_name
dns_skip_name-Skips msg len zero p bytes l m h = absurd (omega arith)
dns_skip_name-Skips msg len (suc f) p bytes l m h = ground (
  arith,
  bytes p,
  plain_label (byte_at msg p) (bytes p),
  λ (a : u16 (p + 1 + byte_at msg p) ≤ len) (b : len < u16 (p + 1 + byte_at msg p) + f).
      dns_skip_name-Skips msg len f (u16 (p + 1 + byte_at msg p)) bytes l a b,
  λ (a : p ≤ u16 (p + 1 + byte_at msg p)).
      Skips-mono p (u16 (p + 1 + byte_at msg p)) len
        (dns_skip_name msg len f (u16 (p + 1 + byte_at msg p))) a,
)
