-- ===== src/Vendor/RoundTrip.antt =====
-- Vendor informations that were stored, as both passes of the parsers read them.
use sicapwap.Prelude.{
  ℕ, ◌<◌, ◌≡◌, refl, sym, subst, Bool, true, false, some, List, [], ◌∷◌, ◌++◌, All, length,
}
use sicapwap.Exec.{pure, ◌>>=◌}
use sicapwap.Message.{be16, be32}
use sicapwap.Message.Reads.{
  Reads, Reads-pure, Reads-then, Reads-return, Reads16_fits, Reads32_fits, Reads-raw_fits,
}
use sicapwap.Message.Writes.{Writes, Writes-pure, Writes-then, Writes16, Writes32, Writes-raw}
use sicapwap.Vendor.{
  VendorInfo, net_order, store_value, store_values, store_infos, check_value, parse_value,
  parse_values, parse_infos,
}

net_order_twice : (bytes : List ℕ) → net_order (net_order bytes) ≡ bytes
unfolding net_order
net_order_twice [] = refl
net_order_twice (a ∷ []) = refl
net_order_twice (a ∷ b ∷ []) = refl
net_order_twice (a ∷ b ∷ c ∷ []) = refl
net_order_twice (a ∷ b ∷ c ∷ d ∷ []) = refl
net_order_twice (a ∷ b ∷ c ∷ d ∷ e ∷ r) = refl

pub length-net_order : (bytes : List ℕ) → length (net_order bytes) ≡ length bytes
unfolding net_order
length-net_order [] = refl
length-net_order (a ∷ []) = refl
length-net_order (a ∷ b ∷ []) = refl
length-net_order (a ∷ b ∷ c ∷ []) = refl
length-net_order (a ∷ b ∷ c ∷ d ∷ []) = refl
length-net_order (a ∷ b ∷ c ∷ d ∷ e ∷ r) = refl

-- Type, length and value of one, and of all, with or without an identifier in front of each.
abbrev pub value_bytes : VendorInfo → List ℕ
value_bytes i = be16 i.type ++ (be16 (length i.value) ++ net_order i.value)

abbrev pub id_bytes : Bool → VendorInfo → List ℕ
id_bytes true i = be32 i.vendor_identifier
id_bytes false i = []

abbrev pub all_bytes : Bool → List VendorInfo → List ℕ
all_bytes with_id [] = []
all_bytes with_id (i ∷ is) = id_bytes with_id i ++ (value_bytes i ++ all_bytes with_id is)

Writes-store_value : (i : VendorInfo) → Writes (λ m. store_value m i) (value_bytes i)
unfolding store_value
Writes-store_value i =
    Writes-then _ (Writes16 i.type)
      (Writes-then _ (Writes16 (length i.value)) (Writes-raw (net_order i.value)))

pub Writes-store_values :
    (is : List VendorInfo) → Writes (λ m. store_values m is) (all_bytes false is)
unfolding store_values
Writes-store_values [] = Writes-pure
Writes-store_values (i ∷ is) = Writes-then _ (Writes-store_value i) (Writes-store_values is)

pub Writes-store_infos : (is : List VendorInfo) → Writes (λ m. store_infos m is) (all_bytes true is)
unfolding store_infos
Writes-store_infos [] = Writes-pure
Writes-store_infos (i ∷ is) =
    Writes-then _ (Writes32 i.vendor_identifier)
      (Writes-then _ (Writes-store_value i) (Writes-store_infos is))

-- Each field fits its width.
pub record IsStorable (i : VendorInfo) : Type 0 where
  pub id_fits : i.vendor_identifier < 4294967296
  pub type_fits : i.type < 65536
  pub length_fits : length i.value < 65536

Reads-check_value :
    (i : VendorInfo)
    → Reads 0
        (λ m.
          check_value i.vendor_identifier i.type (some (net_order i.value)) >>= (λ j. pure (j, m)))
        []
        i
unfolding check_value
Reads-check_value i =
    subst (λ bytes. Reads 0 (λ m. pure (record i { value = bytes }, m)) [] i)
      (sym (net_order_twice i.value)) (Reads-pure i)

Reads-parse_value :
    (i : VendorInfo)
    → IsStorable i
    → Reads 1 (λ m. parse_value i.vendor_identifier m) (value_bytes i) i
unfolding parse_value
Reads-parse_value i fits = Reads-then _ (Reads16_fits i.type fits.type_fits) (
    Reads-then _ (Reads16_fits (length i.value) fits.length_fits) (
      Reads-return _
        (Reads-raw_fits (net_order i.value) (length i.value) (length-net_order i.value))
        (Reads-check_value i)))

pub Reads-parse_values :
    (id : ℕ) (is : List VendorInfo)
    → All (λ i. IsStorable i × (i.vendor_identifier ≡ id)) is
    → Reads (length is) (λ m. parse_values id (length is) m) (all_bytes false is) is
unfolding parse_values
Reads-parse_values id [] fits = Reads-pure []
Reads-parse_values id (i ∷ is) ((fits, same), others) =
    Reads-then {n = 1} _
      (subst (λ j. Reads 1 (λ m. parse_value j m) (value_bytes i) i) same
        (Reads-parse_value i fits))
      (Reads-return _ (Reads-parse_values id is others) (Reads-pure (i ∷ is)))

pub Reads-parse_infos :
    (is : List VendorInfo)
    → All IsStorable is
    → Reads (length is) (λ m. parse_infos (length is) m) (all_bytes true is) is
unfolding parse_infos
Reads-parse_infos [] fits = Reads-pure []
Reads-parse_infos (i ∷ is) (fits, others) =
    Reads-then _ (Reads32_fits i.vendor_identifier fits.id_fits) (
      Reads-then {n = 1} _ (Reads-parse_value i fits)
        (Reads-return _ (Reads-parse_infos is others) (Reads-pure (i ∷ is))))
