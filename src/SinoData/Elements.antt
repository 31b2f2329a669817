-- ===== src/SinoData/Elements.antt =====
-- sino_comm.c: the elements that a buffer holds, and pushing one more.
use sicapwap.Prelude.{
  ℕ, ◌+◌, ◌-◌, ◌*◌, ◌/◌, ◌%◌, ◌<◌, ◌≤◌, ◌≡◌, sym, ap, ◌∙◌, true, false, none, some, List, [], ◌∷◌,
  ◌++◌, arith, ltb, length, replicate, length-append, take-append, append_assoc, append-nil,
}
use sicapwap.Message.{be16, be32}
use sicapwap.Message.Written.{drop-written}
use sicapwap.SinoData.{
  SinoData, sinoix_max_size, si_magic, head_size, elem_size, overwrite, head_len, head_elems,
  sino_assemble_data, sino_data_push,
}

abbrev pub bytes_of : ℕ × List ℕ → List ℕ
bytes_of (type, info) = be16 type ++ (be16 (length info) ++ info)

abbrev pub all_bytes : List (ℕ × List ℕ) → List ℕ
all_bytes [] = []
all_bytes (e ∷ es) = bytes_of e ++ all_bytes es

abbrev pub head_bytes : ℕ → ℕ → List ℕ
head_bytes elems len = be32 si_magic ++ (be16 elems ++ be16 len)

-- The buffer holds these elements and nothing behind them.
pub record Pushed (sino : SinoData) (es : List (ℕ × List ℕ)) (free : ℕ) : Type 0 where
  pub buffer :
      sino.sino_buff
      ≡ (head_bytes (length es) (length (all_bytes es)) ++ all_bytes es) ++ replicate free 0
  pub filled : sino.offset ≡ head_size + length (all_bytes es)
  pub room : head_size + length (all_bytes es) + free ≡ sinoix_max_size

overwrite-free :
    (front more : List ℕ) (free : ℕ)
    → overwrite (front ++ replicate (length more + free) 0) (length front) more
      ≡ (front ++ more) ++ replicate free 0
overwrite-free front more free =
    rw (take-append front (replicate (length more + free) 0), drop-written front (length more) free)
      (sym (append_assoc front more (replicate free 0)))

all_bytes-append :
    (es : List (ℕ × List ℕ)) (e : ℕ × List ℕ)
    → all_bytes (es ++ (e ∷ [])) ≡ all_bytes es ++ bytes_of e
all_bytes-append [] e = append-nil (bytes_of e)
all_bytes-append (d ∷ es) e =
    ap (λ r. bytes_of d ++ r) (all_bytes-append es e)
    ∙ sym (append_assoc (bytes_of d) (all_bytes es) (bytes_of e))

-- The head's fields after a push.
head_updated :
    (elems len more : ℕ) (rest : List ℕ)
    → elems < 65536
    → len < 65536
    → (let buf = head_bytes elems len ++ rest in
        let buf' = overwrite buf 6 (be16 (head_len buf + more + 4)) in
        overwrite buf' 4 (be16 (head_elems buf' + 1))
        ≡ head_bytes (elems + 1) (len + more + 4) ++ rest)
head_updated elems len more rest small_elems small_len =
    let whole_len : (0 * 256 + len / 256 % 256) * 256 + len % 256 ≡ len = omega arith in
    let whole_elems : (0 * 256 + elems / 256 % 256) * 256 + elems % 256 ≡ elems = omega arith in
    ap
      (λ n.
        be32 si_magic
        ++ (be16 (((0 * 256 + elems / 256 % 256) * 256 + elems % 256) + 1)
            ++ (be16 (n + more + 4) ++ rest)))
      whole_len
    ∙ ap (λ n. be32 si_magic ++ (be16 (n + 1) ++ (be16 (len + more + 4) ++ rest))) whole_elems

length-bytes_of : (type : ℕ) (info : List ℕ) → length (bytes_of (type, info)) ≡ 4 + length info
length-bytes_of type info = omega arith

few_elements : (es : List (ℕ × List ℕ)) → length es ≤ length (all_bytes es)
few_elements [] = omega arith
few_elements ((type, info) ∷ es) = omega (arith, few_elements es, length-append info (all_bytes es))

length-one_more :
    (es : List (ℕ × List ℕ)) (e : ℕ × List ℕ) → length (es ++ (e ∷ [])) ≡ length es + 1
length-one_more es e = omega (arith, length-append es (e ∷ []))

length-all_more :
    (es : List (ℕ × List ℕ)) (type : ℕ) (info : List ℕ)
    → length (all_bytes (es ++ ((type, info) ∷ []))) ≡ length (all_bytes es) + length info + 4
length-all_more es type info =
    ap length (all_bytes-append es (type, info))
    ∙ omega (arith, length-append (all_bytes es) (bytes_of (type, info)))

-- The buffer after a push, with the head as it was before.
pushed_behind :
    (es : List (ℕ × List ℕ)) (type : ℕ) (info : List ℕ) (free more : ℕ)
    → free ≡ length (bytes_of (type, info)) + more
    → (let head = head_bytes (length es) (length (all_bytes es)) in
        overwrite
          ((head ++ all_bytes es) ++ replicate free 0)
          (head_size + length (all_bytes es))
          (bytes_of (type, info))
        ≡ head ++ (all_bytes (es ++ ((type, info) ∷ [])) ++ replicate more 0))
pushed_behind es type info free more split =
    let head = head_bytes (length es) (length (all_bytes es)) in
    let new : List ℕ = bytes_of (type, info) in
    let at_end : head_size + length (all_bytes es) ≡ length (head ++ all_bytes es) = omega arith in
    rw
      (
        split,
        at_end,
        overwrite-free (head ++ all_bytes es) new more,
        all_bytes-append es (type, info),
      )
      (append_assoc (head ++ all_bytes es) new (replicate more 0)
        ∙ append_assoc head (all_bytes es) (new ++ replicate more 0)
        ∙ ap (λ r. head ++ r) (sym (append_assoc (all_bytes es) new (replicate more 0))))

-- Sino_data_push of an element that fits puts it behind the others, and the head counts one
-- element and its bytes more.
pub sino_data_push-Pushed :
    (sino : SinoData) (es : List (ℕ × List ℕ)) (free type : ℕ) (info : List ℕ)
    → Pushed sino es free
    → 4 + length info ≤ free
    → (sino' : SinoData) × (sino_data_push sino type info ≡ some sino')
      × Pushed sino' (es ++ ((type, info) ∷ [])) (free - (4 + length info))
unfolding sino_data_push sino_assemble_data
sino_data_push-Pushed sino es free type info h fits =
    let new : List ℕ = bytes_of (type, info) in
    let len : ℕ = length (all_bytes es) in
    let more : ℕ = free - (4 + length info) in
    let size : ℕ = sinoix_max_size - sino.offset in
    let roomy : ltb (sinoix_max_size - sino.offset) (elem_size + length info) ≡ false =
      ground (arith, h.filled, h.room) in
    let split : free ≡ length new + more = omega arith in
    let rest = all_bytes (es ++ ((type, info) ∷ [])) ++ replicate more 0 in
    let middle = head_bytes (length es) len ++ rest in
    let buf1 = overwrite sino.sino_buff sino.offset new in
    let same : buf1 ≡ middle =
      ap (λ b. overwrite b sino.offset new) h.buffer
      ∙ ap (λ i. overwrite ((head_bytes (length es) len ++ all_bytes es) ++ replicate free 0) i new)
          h.filled
      ∙ pushed_behind es type info free more split in
    let buf2 = overwrite buf1 6 (be16 (head_len buf1 + length info + elem_size)) in
    (
      record sino {
        offset = (sino.offset + length new) % 65536;
        sino_buff = overwrite buf2 4 (be16 (head_elems buf2 + 1));
      },
      rw (sino_data_push, roomy),
      record {
        buffer =
            ap
              (λ b.
                let b2 = overwrite b 6 (be16 (head_len b + length info + elem_size)) in
                overwrite b2 4 (be16 (head_elems b2 + 1)))
              same
            ∙ head_updated (length es) len (length info) rest
                (omega (arith, few_elements es, h.room)) (omega (arith, h.room))
            ∙ rw (length-one_more es (type, info), length-all_more es type info)
                (sym (
                  append_assoc (head_bytes (length es + 1) (len + length info + 4))
                    (all_bytes (es ++ ((type, info) ∷ []))) (replicate more 0)));
        filled = omega (arith, h.filled, h.room, length-all_more es type info);
        room = omega (arith, h.room, length-all_more es type info);
      },
    )

-- Sino_data_push of an element that does not fit behind the others returns 0.
pub sino_data_push-full :
    (sino : SinoData) (es : List (ℕ × List ℕ)) (free type : ℕ) (info : List ℕ)
    → Pushed sino es free
    → free < 4 + length info
    → sino_data_push sino type info ≡ none
unfolding sino_data_push sino_assemble_data
sino_data_push-full sino es free type info h over =
    let full : ltb (sinoix_max_size - sino.offset) (elem_size + length info) ≡ true =
      ground (arith, h.filled, h.room) in
    rw (sino_data_push, full)
