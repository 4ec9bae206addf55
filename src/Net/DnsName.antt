-- ===== src/Net/DnsName.antt =====
-- The name that `net_dns_query` of kernel/net.c puts into its packet.
use piux_kernel.Prelude.{
  ℕ, zero, suc, ◌+◌, ◌%◌, ◌^◌, ◌<◌, ◌≤◌, ◌≡◌, ◌≢◌, ◌⊎◌, refl, ◌∙◌, arith, [], ◌∷◌, CString, Buffer,
  update, length, get_or, some,
}
use piux_kernel.Net.{Encoder, end_label, add_character, encode_from, encode_name}

-- A label of a host name: no terminator and no dot.
abbrev pub IsLabel : CString → Type 0
IsLabel [] = Unit {0}
IsLabel (c ∷ name) = (c ≢ 0) × (c ≢ b'.') × IsLabel name

-- The characters of a label, from an index on.
abbrev put_string : Buffer → ℕ → CString → Buffer
put_string packet at [] = packet
put_string packet at (c ∷ name) = put_string (update packet at c) (at + 1) name

put_string-outside :
    (packet : Buffer) (at k : ℕ) (name : CString)
    → (k < at) ⊎ (at + length name ≤ k)
    → put_string packet at name k ≡ packet k
put_string-outside packet at k [] h = refl
put_string-outside packet at k (c ∷ name) h =
    put_string-outside (update packet at c) (at + 1) k name (omega arith) ∙ ground arith

put_string-inside :
    (packet : Buffer) (at i : ℕ) (name : CString)
    → i < length name
    → put_string packet at name (at + i) ≡ get_or name i 0
put_string-inside packet at i [] h = elim h [ ]
put_string-inside packet at zero (c ∷ name) h =
    put_string-outside (update packet at c) (at + 1) (at + 0) name (omega arith) ∙ ground arith
put_string-inside packet at (suc i) (c ∷ name) h =
    let e : at + suc i ≡ at + 1 + i = omega arith in
    rw e (put_string-inside (update packet at c) (at + 1) i name (omega arith))

abbrev pushed : Encoder → ℕ → Encoder
pushed e c = record e {
  packet = update e.packet (e.offset + e.label_length) c;
  label_length = e.label_length + 1;
}

add_lem :
    (e : Encoder) (c : ℕ) (name : CString)
    → c ≢ 0
    → c ≢ b'.'
    → e.label_length ≢ 0
    → encode_from e (c ∷ name) ≡ encode_from (pushed e c) name
unfolding encode_from add_character
add_lem e c name z d h = ground arith

regroup :
    (e : Encoder) (packet : Buffer) (name : CString)
    → end_label (record e {
      packet = put_string packet (e.offset + (e.label_length + 1)) name;
      label_length = e.label_length + 1 + length name;
    })
      ≡ end_label (record e {
        packet = put_string packet (e.offset + e.label_length + 1) name;
        label_length = e.label_length + suc (length name);
      })
regroup e packet name =
    let p : e.offset + (e.label_length + 1) ≡ e.offset + e.label_length + 1 = omega arith in
    let q : e.label_length + 1 + length name ≡ e.label_length + suc (length name) = omega arith in
    rw (p, q)

-- All characters behind the first one are put behind it.
encode_label :
    (e : Encoder) (name : CString)
    → IsLabel name
    → e.label_length ≢ 0
    → encode_from e name
      ≡ end_label (record e {
        packet = put_string e.packet (e.offset + e.label_length) name;
        label_length = e.label_length + length name;
      })
encode_label e [] l h =
    let z : e.label_length + 0 ≡ e.label_length = omega arith in rw z (unfold encode_from in refl)
encode_label e (c ∷ name) l h =
    add_lem e c name l.0 l.1 h
    ∙ encode_label (pushed e c) name l.2 (omega arith)
    ∙ regroup e (update e.packet (e.offset + e.label_length) c) name

abbrev first_state : Buffer → Encoder
first_state packet = record { packet = packet; offset = 12; label_start = 12; label_length = 0 }

-- The state at the end of a name of one label.
abbrev label_state : Buffer → ℕ → CString → Encoder
label_state packet c name = record {
  packet = put_string (update packet 13 c) 14 name;
  offset = 13;
  label_start = 12;
  label_length = 1 + length name;
}

encode_first :
    (packet : Buffer) (c : ℕ) (name : CString)
    → IsLabel (c ∷ name)
    → encode_from (first_state packet) (c ∷ name) ≡ end_label (label_state packet c name)
encode_first packet c name l =
    first
    ∙ encode_label (record (first_state (update packet 13 c)) { offset = 13; label_length = 1 })
        name l.2 (omega arith)
  where
    first :
        encode_from (first_state packet) (c ∷ name)
        ≡ encode_from
            (record (first_state (update packet 13 c)) { offset = 13; label_length = 1 })
            name
    first = unfold encode_from add_character in ground (arith, l.0, l.1)

-- What `net_dns_query` has when the name is encoded.
abbrev encoded : Buffer → ℕ → CString → Encoder
encoded packet c name =
    let n = length (c ∷ name) in
    record {
      packet = update (update (put_string packet 13 (c ∷ name)) 12 n) (14 + n) 0;
      offset = 15 + n;
      label_start = 14 + n;
      label_length = 0;
    }

label_closed :
    (packet : Buffer) (c : ℕ) (name : CString)
    → length name < 63
    → end_label (label_state packet c name)
      ≡ some (record {
        packet = update (put_string packet 13 (c ∷ name)) 12 (suc (length name));
        offset = 14 + suc (length name);
        label_start = 14 + suc (length name);
        label_length = 0;
      })
unfolding end_label
label_closed packet c name h =
    let low : (1 + length name) % 256 ≡ suc (length name) = omega arith in
    let next : (13 + (1 + length name) + 1) % 2 ^ 16 ≡ 14 + suc (length name) = omega arith in
    rw (low, next) (ground arith)

encode_name_lem :
    (packet : Buffer) (c : ℕ) (name : CString)
    → IsLabel (c ∷ name)
    → length name < 63
    → encode_name packet (c ∷ name) ≡ some (encoded packet c name)
encode_name_lem packet c name l h =
    unfold encode_name in
    rw (encode_first packet c name l, label_closed packet c name h)
      (let e : 14 + suc (length name) + 1 ≡ 15 + suc (length name) = omega arith in rw e refl)

-- For a label of 1 to 63 characters `net_dns_query` leaves one byte of its packet unset between the
-- label and the closing zero, where the format has the zero right behind the label: the length
-- stands at 12 and the characters behind it, but the byte behind the last character keeps what the
-- buffer held, the zero comes after that, and the packet goes on two bytes behind the unset one.
pub dns_gap :
    (packet : Buffer) (c : ℕ) (name : CString)
    → IsLabel (c ∷ name)
    → length name < 63
    → let n = length (c ∷ name) in
      (e : Encoder) × (encode_name packet (c ∷ name) ≡ some e)
      × (e.packet 12 ≡ n)
      × ((i : ℕ) → i < n → e.packet (13 + i) ≡ get_or (c ∷ name) i 0)
      × (e.packet (13 + n) ≡ packet (13 + n))
      × (e.packet (14 + n) ≡ 0)
      × (e.offset ≡ 15 + n)
dns_gap packet c name l h = (
  encoded packet c name,
  encode_name_lem packet c name l h,
  ground arith,
  λ i lt. ground (arith, put_string-inside packet 13 i (c ∷ name) lt),
  ground (arith, put_string-outside packet 13 (13 + suc (length name)) (c ∷ name)),
  ground arith,
  refl,
)
