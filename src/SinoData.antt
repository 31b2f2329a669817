-- ===== src/SinoData.antt =====
-- sino_comm.c: data elements in a buffer behind a head, which counts them and their bytes. The
-- fields are in network order.
pub mod Elements
pub mod Popped
pub mod RoundTrip
use sicapwap.Prelude.{
  ℕ, zero, suc, ◌+◌, ◌-◌, ◌*◌, ◌/◌, ◌%◌, Bool, true, false, Option, none, some, List, [], ◌∷◌, ◌++◌,
  ltb, ◌==◌, if◌then◌else◌, length, take, drop, replicate,
}
use sicapwap.Message.{be16, be32, from_be}

abbrev pub sinoix_max_size : ℕ
sinoix_max_size = 2048

abbrev pub si_magic : ℕ
si_magic = 2309737967

abbrev pub head_size : ℕ
head_size = 8

abbrev pub elem_size : ℕ
elem_size = 4

-- `sino_data`; its `head` points to the buffer. Both numbers are `uint16_t`.
pub record SinoData : Type 0 where
  pub pos : ℕ
  pub offset : ℕ
  pub sino_buff : List ℕ

-- Bytes written over others, and two bytes read as a number.
abbrev pub overwrite : List ℕ → ℕ → List ℕ → List ℕ
overwrite buf i bytes = take i buf ++ (bytes ++ drop (i + length bytes) buf)

abbrev pub get16 : List ℕ → ℕ → ℕ
get16 buf i = from_be 0 (take 2 (drop i buf))

-- The position -1 is 65535.
unfoldable pub sino_data_init : SinoData → SinoData
sino_data_init sino = record { pos = 65535; offset = 0; sino_buff = replicate sinoix_max_size 0 }

-- `sino_assemble_head`.
unfoldable pub sino_assemble_head : List ℕ → List ℕ
sino_assemble_head buf = overwrite buf 0 (be32 si_magic ++ (be16 0 ++ be16 0))

unfoldable pub sino_data_head : SinoData → SinoData
unfolding sino_assemble_head
sino_data_head sino = record sino {
  sino_buff = sino_assemble_head sino.sino_buff;
  offset = head_size;
}

-- The head's count of elements, and its count of bytes.
abbrev pub head_elems : List ℕ → ℕ
head_elems buf = get16 buf 4

abbrev pub head_len : List ℕ → ℕ
head_len buf = get16 buf 6

-- `sino_assemble_data`: the bytes of an element, or nothing if they do not fit.
unfoldable pub sino_assemble_data : ℕ → ℕ → List ℕ → Option (List ℕ)
sino_assemble_data size type info =
    if ltb size (elem_size + length info)
    then none
    else some (be16 type ++ (be16 (length info) ++ info))

-- `sino_data_push`; `none` stands for the return of 0.
unfoldable pub sino_data_push : SinoData → ℕ → List ℕ → Option SinoData
sino_data_push sino type info =
    elim (sino_assemble_data (sinoix_max_size - sino.offset) type info) [
      | none ↦ none
      | some bytes ↦
          let buf = overwrite sino.sino_buff sino.offset bytes in
          let buf = overwrite buf 6 (be16 (head_len buf + length info + elem_size)) in
          let buf = overwrite buf 4 (be16 (head_elems buf + 1)) in
          some (record sino { offset = (sino.offset + length bytes) % 65536; sino_buff = buf })
    ]

unfoldable pub sino_data_elem_pop_init : SinoData → SinoData
sino_data_elem_pop_init sino = record sino { pos = head_size }

-- The element at the position: its type, its length and its bytes.
abbrev pub elem_at : List ℕ → ℕ → ℕ × ℕ × List ℕ
elem_at buf i =
    (get16 buf i, get16 buf (i + 2), take (get16 buf (i + 2)) (drop (i + elem_size) buf))

-- The outer `none` is a read outside the buffer, the inner one the return of 0.
unfoldable pub sino_data_elem_pop : SinoData → Option (Option (ℕ × ℕ × List ℕ) × SinoData)
sino_data_elem_pop sino =
    if sino.pos == 0
    then some (none, sino)
    else if ltb (length sino.sino_buff) (sino.pos + elem_size)
    then none
    else some (
      some (elem_at sino.sino_buff sino.pos),
      record sino { pos = (sino.pos + elem_size + get16 sino.sino_buff (sino.pos + 2)) % 65536 },
    )

-- `sino_total_elem_len`, by the elements that are left from `i` on.
unfoldable pub total_from : List ℕ → ℕ → ℕ → ℕ → ℕ
total_from buf zero len i = len
total_from buf (suc left) len i =
    let size = elem_size + get16 buf (i + 2) in total_from buf left (len + size) (i + size)

unfoldable pub sino_total_elem_len : List ℕ → ℕ
sino_total_elem_len buf = total_from buf (head_elems buf) 0 head_size
