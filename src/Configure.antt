-- ===== src/Configure.antt =====
-- WTPConfigureState.c and ACConfigureState.c: the Configure Request of the termination point, and
-- what the access controller makes of it.
pub mod Pieces
pub mod Taken
pub mod Received
use sicapwap.Prelude.{
  ℕ, zero, suc, ◌+◌, Bool, true, Option, none, some, List, [], ◌∷◌, ◌==◌, if◌then◌else◌,
}
use sicapwap.Exec.{Exec, pure, ◌>>=◌, ◌>>◌, raise, invalid_format, alloc}
use sicapwap.Message.{Message, blank}
use sicapwap.Element.{RadioState, parse_ac_name, parse_wtp_radio_admin_state}
use sicapwap.Fragment.{assemble_message}
use sicapwap.WtpProtocol.Assemble.{
  assemble_array, assemble_ac_name, assemble_ac_name_with_index, assemble_statistics_timer,
}
use sicapwap.WtpProtocol.Events.{
  RebootStatistics, assemble_radio_admin_state, assemble_wtp_reboot_statistics,
}
use sicapwap.AcProtocol.Parse.{parse_wtp_statistics_timer}
use sicapwap.AcProtocol.Events.{parse_ac_name_with_index, parse_wtp_reboot_statistics}
use sicapwap.ElementLoop.{into, skip, put_into, parse_control_message_twice}

abbrev pub configure_request : ℕ
configure_request = 5

-- What the getters of the termination point return.
pub record WtpState : Type 0 where
  pub ac_name : List ℕ
  pub ac_names : List (ℕ × List ℕ)
  pub radios : List RadioState
  pub statistics_timer : ℕ
  pub reboot_statistics : RebootStatistics

abbrev pub configure_request_elements : WtpState → List (Exec Message)
configure_request_elements w =
    assemble_ac_name blank w.ac_name
    ∷ assemble_ac_name_with_index blank w.ac_names
    ∷ assemble_radio_admin_state blank w.radios
    ∷ assemble_statistics_timer blank w.statistics_timer
    ∷ assemble_wtp_reboot_statistics blank w.reboot_statistics
    ∷ []

unfoldable pub assemble_configure_request : ℕ → ℕ → ℕ → ℕ → WtpState → Exec (List Message)
assemble_configure_request id pmtu seq_num is_crypted w = do
  alloc
  elems ← assemble_array (λ a. a) (configure_request_elements w)
  assemble_message id pmtu seq_num configure_request is_crypted elems []

-- `CWProtocolConfigureRequestValues`.
pub record ConfigureRequest : Type 0 where
  pub ac_name : Option (List ℕ)
  pub ac_names_count : ℕ
  pub ac_names : List (ℕ × Option (List ℕ))
  pub radios_count : ℕ
  pub radios : List RadioState
  pub statistics_timer : ℕ
  pub reboot_statistics : RebootStatistics

-- The first round counts the names and the radios.
unfoldable pub configure_request_count :
    ℕ → ℕ → ConfigureRequest → Message → Exec (ConfigureRequest × Message)
configure_request_count type len v m =
    if type == 4
    then into (parse_ac_name m len) (λ s. record v { ac_name = s })
    else if type == 5
    then skip len (record v { ac_names_count = v.ac_names_count + 1 }) m
    else if type == 31
    then skip len (record v { radios_count = v.radios_count + 1 }) m
    else if type == 36
    then into (parse_wtp_statistics_timer m len) (λ s. record v { statistics_timer = s })
    else if type == 47
    then alloc >> into (parse_wtp_reboot_statistics m len) (λ s. record v { reboot_statistics = s })
    else raise invalid_format

-- The second round reads them. The cause of a new entry is not set: it is `unset`.
unfoldable pub configure_request_read :
    ℕ → ℕ → ℕ → ConfigureRequest → Message → Exec (ConfigureRequest × Message)
configure_request_read unset type len v m =
    if type == 5
    then put_into (parse_ac_name_with_index m len) v.ac_names_count v.ac_names
        (λ s. record v { ac_names = s })
    else if type == 31
    then put_into (parse_wtp_radio_admin_state m len (record { id = 0; state = 0; cause = unset }))
        v.radios_count v.radios (λ s. record v { radios = s })
    else skip len v m

-- Both arrays are allocated.
unfoldable pub configure_request_arrays : ConfigureRequest → Exec ConfigureRequest
configure_request_arrays v = do alloc; alloc; pure (record v { ac_names = []; radios = [] })

-- `old` are the values that the caller has not assigned; the counts are reset.
unfoldable pub parse_configure_request :
    ℕ → List ℕ → ℕ → ConfigureRequest → Exec (ℕ × ConfigureRequest)
parse_configure_request unset msg len old =
    parse_control_message_twice configure_request_count (configure_request_read unset)
      configure_request_arrays (λ seq_num. true) configure_request msg len
      (record old { ac_names_count = 0; radios_count = 0 })

-- `CWWTPProtocolManager`, as far as the Configure Request sets it.
pub record Configuration : Type 0 where
  pub ac_name : Option (List ℕ)
  pub ac_names_count : ℕ
  pub ac_names : List (ℕ × Option (List ℕ))
  pub radios_count : ℕ
  pub radios : List RadioState
  pub statistics_timer : ℕ
  pub reboot_statistics : RebootStatistics

-- The old name is freed, which leaves `NULL`, before a new one is set.
unfoldable pub save_configure_request : ConfigureRequest → Configuration → Configuration
save_configure_request v g =
    let g : Configuration = record g { ac_name = none } in
    let g : Configuration = elim v.ac_name [
      | none ↦ g
      | some name ↦ record g { ac_name = some name }
    ] in
    record g {
      ac_names_count = v.ac_names_count;
      ac_names = v.ac_names;
      radios_count = v.radios_count;
      radios = v.radios;
      statistics_timer = v.statistics_timer;
      reboot_statistics = v.reboot_statistics;
    }
