-- ===== src/SinoData/Popped.antt =====
-- sino_comm.c: popping the elements one by one.
use sicapwap.Prelude.{
  ℕ, ◌+◌, ◌*◌, ◌/◌, ◌%◌, ◌<◌, ◌≤◌, ◌≡◌, ◌≢◌, refl, sym, ap, ◌∙◌, false, some, List, [], ◌∷◌, ◌++◌,
  arith, ltb, ne→==, length, drop, replicate, length-append, take-append, drop-append, drop-drop,
  append_assoc,
}
use sicapwap.Message.{be16}
use sicapwap.SinoData.{SinoData, head_size, elem_size, sino_data_elem_pop, elem_at}
use sicapwap.SinoData.Elements.{Pushed, bytes_of, all_bytes, head_bytes}

-- The element behind a front.
elem_at-behind :
    (front tail : List ℕ) (type : ℕ) (info : List ℕ)
    → type < 65536
    → length info < 65536
    → elem_at (front ++ (bytes_of (type, info) ++ tail)) (length front) ≡ (type, length info, info)
elem_at-behind front tail type info small_type small_info =
    let buf = front ++ (bytes_of (type, info) ++ tail) in
    let at_type = drop-append front (bytes_of (type, info) ++ tail) in
    let at_len : drop (length front + 2) buf ≡ be16 (length info) ++ (info ++ tail) =
      sym (drop-drop (length front) 2 buf) ∙ ap (drop 2) at_type in
    let at_info : drop (length front + elem_size) buf ≡ info ++ tail =
      sym (drop-drop (length front) 4 buf) ∙ ap (drop 4) at_type in
    let whole_type : (0 * 256 + type / 256 % 256) * 256 + type % 256 ≡ type = omega arith in
    let whole_len : (0 * 256 + length info / 256 % 256) * 256 + length info % 256 ≡ length info =
      omega arith in
    rw (at_type, at_len, at_info, whole_type, whole_len, take-append info tail)

all_bytes-split :
    (done rest : List (ℕ × List ℕ)) (e : ℕ × List ℕ)
    → all_bytes (done ++ (e ∷ rest)) ≡ all_bytes done ++ (bytes_of e ++ all_bytes rest)
all_bytes-split [] rest e = refl
all_bytes-split (d ∷ done) rest e =
    ap (λ r. bytes_of d ++ r) (all_bytes-split done rest e)
    ∙ sym (append_assoc (bytes_of d) (all_bytes done) (bytes_of e ++ all_bytes rest))

-- A pop at a position with an element.
pop_at :
    (sino : SinoData) (type : ℕ) (info : List ℕ)
    → elem_at sino.sino_buff sino.pos ≡ (type, length info, info)
    → sino.pos ≢ 0
    → sino.pos + 4 ≤ length sino.sino_buff
    → sino.pos + 4 + length info < 65536
    → sino_data_elem_pop sino
      ≡ some (some (type, length info, info), record sino { pos = sino.pos + 4 + length info })
unfolding sino_data_elem_pop
pop_at sino type info there some_pos fits short =
    let inside : ltb (length sino.sino_buff) (sino.pos + elem_size) ≡ false = ground arith in
    rw (sino_data_elem_pop, ne→== sino.pos 0 some_pos, inside)
      (ap
          (λ (r : ℕ × ℕ × List ℕ).
            some (some r, record sino { pos = (sino.pos + elem_size + r.1) % 65536 }))
          there
        ∙ ap (λ n. some (some (type, length info, info), record sino { pos = n })) (omega arith))

-- The buffer in three parts, and their sizes.
parted :
    (head front element back behind : List ℕ)
    → (head ++ (front ++ (element ++ back))) ++ behind
      ≡ (head ++ front) ++ (element ++ (back ++ behind))
parted head front element back behind =
    append_assoc head (front ++ (element ++ back)) behind
    ∙ ap (λ r. head ++ r)
        (append_assoc front (element ++ back) behind
          ∙ ap (λ r. front ++ r) (append_assoc element back behind))
    ∙ sym (append_assoc head front (element ++ (back ++ behind)))

length-split :
    (done rest : List (ℕ × List ℕ)) (type : ℕ) (info : List ℕ)
    → length (all_bytes (done ++ ((type, info) ∷ rest)))
      ≡ length (all_bytes done) + (4 + length info + length (all_bytes rest))
length-split done rest type info =
    ap length (all_bytes-split done rest (type, info))
    ∙ omega (
      arith,
      length-append (all_bytes done) (bytes_of (type, info) ++ all_bytes rest),
      length-append (bytes_of (type, info)) (all_bytes rest),
    )

-- At the position behind the elements that were popped, sino_data_elem_pop returns the type, the
-- length and the bytes of the next element that was pushed, and moves the position behind it; the
-- type has 16 bits.
pub sino_data_elem_pop-Pushed :
    (sino : SinoData) (done rest : List (ℕ × List ℕ)) (type : ℕ) (info : List ℕ) (free : ℕ)
    → Pushed sino (done ++ ((type, info) ∷ rest)) free
    → sino.pos ≡ head_size + length (all_bytes done)
    → type < 65536
    → sino_data_elem_pop sino
      ≡ some (
        some (type, length info, info),
        record sino { pos = head_size + length (all_bytes (done ++ ((type, info) ∷ []))) },
      )
sino_data_elem_pop-Pushed sino done rest type info free h at small_type =
    let es = done ++ ((type, info) ∷ rest) in
    let head : List ℕ = head_bytes (length es) (length (all_bytes es)) in
    let front : List ℕ = head ++ all_bytes done in
    let tail : List ℕ = all_bytes rest ++ replicate free 0 in
    let cut : sino.sino_buff ≡ front ++ (bytes_of (type, info) ++ tail) =
      h.buffer
      ∙ ap (λ r. (head ++ r) ++ replicate free 0) (all_bytes-split done rest (type, info))
      ∙ parted head (all_bytes done) (bytes_of (type, info)) (all_bytes rest) (replicate free 0) in
    let place : sino.pos ≡ length front = at ∙ omega arith in
    let sizes = length-split done rest type info in
    let whole : length sino.sino_buff ≡ length front + (4 + length info + length tail) =
      ap length cut
      ∙ omega (
        arith,
        length-append front (bytes_of (type, info) ++ tail),
        length-append (bytes_of (type, info)) tail,
      ) in
    let there : elem_at sino.sino_buff sino.pos ≡ (type, length info, info) =
      ap (λ b. elem_at b sino.pos) cut
      ∙ ap (elem_at (front ++ (bytes_of (type, info) ++ tail))) place
      ∙ elem_at-behind front tail type info small_type (omega (arith, h.room, sizes)) in
    pop_at sino type info there (omega (arith, at)) (omega (arith, whole, place))
      (omega (arith, at, h.room, sizes))
    ∙ ap (λ n. some (some (type, length info, info), record sino { pos = n }))
        (omega (arith, at, length-split done [] type info))
