-- ===== src/Element/RoundTrip.antt =====
-- What the element assemblers write, and what the parsers read back.
use sicapwap.Prelude.{
  ℕ, suc, ◌+◌, ◌%◌, ◌≡◌, refl, Option, none, List, [], ◌++◌, arith, length, append_assoc,
  length-append, ◌==◌, if◌then◌else◌, ◌-◌,
}
use sicapwap.Exec.{ok, raised, invalid_format}
use sicapwap.Message.{Message, be16, be32}
use sicapwap.Message.Written.{written, store16-written, store_message-written}
use sicapwap.Message.Reading.{reading, retrieve16-reading, retrieve32-reading}
use sicapwap.Element.{
  assemble_msg_elem, assemble_msg_elem_result_code, assemble_msg_elem_session_id,
  parse_format_msg_elem, parse_result_code, result_code_type, session_id_type,
}

-- An element: type, length, body.
abbrev pub element_bytes : ℕ → List ℕ → List ℕ
element_bytes type body = be16 type ++ (be16 (length body) ++ body)

pub assemble_msg_elem-written :
    (d : Option ℕ) (body : List ℕ) (spare type k : ℕ)
    → assemble_msg_elem (written d body spare) type (suc k)
      ≡ ok (written d (element_bytes type body) 2, k)
unfolding assemble_msg_elem
assemble_msg_elem-written d body spare type k =
    let room : 6 + length body ≡ 2 + (2 + (length body + 2)) = omega arith in
    rw (
      room,
      store16-written none [] (2 + (length body + 2)) k type,
      store16-written none (be16 type) (length body + 2) k (length body),
      store_message-written none (be16 type ++ be16 (length body)) 2 k d body spare,
    )

-- The result code element: 8 bytes.
pub assemble_msg_elem_result_code-written :
    (m : Message) (code k : ℕ)
    → assemble_msg_elem_result_code m code (suc (suc k))
      ≡ ok (written m.data_msg_type (element_bytes result_code_type (be32 code)) 2, k)
unfolding assemble_msg_elem_result_code
assemble_msg_elem_result_code-written m code k = refl

pub assemble_msg_elem_session_id-written :
    (m : Message) (id k : ℕ)
    → assemble_msg_elem_session_id m id (suc (suc k))
      ≡ ok (written m.data_msg_type (element_bytes session_id_type (be32 id)) 2, k)
unfolding assemble_msg_elem_session_id
assemble_msg_elem_session_id-written m id k = refl

-- CWParseFormatMsgElem reads the type and the length of an assembled element in 16 bits each, and
-- stops at the body.
pub parse_format_msg_elem-assembled :
    (d : Option ℕ) (front body rest : List ℕ) (type k : ℕ)
    → parse_format_msg_elem (reading d front (element_bytes type body ++ rest)) k
      ≡ ok (
        (
          type % 65536,
          length body % 65536,
          reading d (front ++ (be16 type ++ be16 (length body))) (body ++ rest),
        ),
        k,
      )
unfolding parse_format_msg_elem
parse_format_msg_elem-assembled d front body rest type k = rw (
  retrieve16-reading d front (be16 (length body) ++ (body ++ rest)) type k,
  retrieve16-reading d (front ++ be16 type) (body ++ rest) (length body) k,
  append_assoc front (be16 type) (be16 (length body)),
)

-- CWParseResultCode reads a result code in 32 bits if the length is 4, and raises an invalid
-- format otherwise.
pub parse_result_code-assembled :
    (d : Option ℕ) (front rest : List ℕ) (code len k : ℕ)
    → parse_result_code (reading d front (be32 code ++ rest)) len k ≡ (
        if 4 == len
        then ok ((code % 4294967296, reading d (front ++ be32 code) rest), k)
        else raised invalid_format)
unfolding parse_result_code
parse_result_code-assembled d front rest code len k =
    let four : length (front ++ be32 code) - length front ≡ 4 =
      omega (arith, length-append front (be32 code)) in
    rw (retrieve32-reading d front rest code k, four) (ground arith)
