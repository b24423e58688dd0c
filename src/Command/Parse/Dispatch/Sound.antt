-- ===== src/Command/Parse/Dispatch/Sound.antt =====
-- The dispatch on any bytes: no panic, and what parses lies within the protocol's ranges.
use felica_rs.Prelude.{
  ℕ, ◌+◌, ◌*◌, ◌≤◌, ◌≡◌, false, List, [], ◌∷◌, String, length, All, ◌==◌, ==→eq, arith,
}
use felica_rs.Prelude.Bytes.{IsByte, IsWord, from_le_bytes-IsWord}
use felica_rs.Prelude.Outcome.Ensures.{
  Ensures, returns, fails, Ensures-bind, Ensures-ensure, Ensures-if, Ensures-mono, index-Ensures,
  slice_to-Ensures, slice_from-Ensures, get_to-Ensures,
}
use felica_rs.Felica.Constants
use felica_rs.Felica.Constants.{max_block_count, block_size}
use felica_rs.Felica.Types.Block.{BlockListElement, IsElement}
use felica_rs.Command.{
  FelicaStandardCommand, read, write, read_v2, write_v2, register_area, register_service,
}
use felica_rs.Command.Wire.{fields, is_secure, IsValid, IsParsed, IsBytes, Counted}
use felica_rs.Command.Parse.Fields.Sound.{take_count-Ensures, take_block_list-Ensures}
use felica_rs.Command.Parse.Queries.Sound.{
  parse_polling-Ensures, parse_request_service-Ensures, parse_request_response-Ensures,
  parse_search_service_code-Ensures, parse_request_system_code-Ensures,
  parse_request_block_information-Ensures, parse_request_code_list-Ensures,
  parse_request_block_information_ex-Ensures, parse_get_area_information-Ensures,
  parse_request_service_v2-Ensures,
}
use felica_rs.Command.Parse.Access.Sound.{
  parse_read_without_encryption-Ensures, parse_write_without_encryption-Ensures,
  parse_authentication1-Ensures, parse_authentication2-Ensures, parse_authentication1_v2-Ensures,
  parse_authentication2_v2-Ensures,
}
use felica_rs.Command.Parse.Settings.Sound.{
  parse_set_parameter-Ensures, parse_get_container_issue_information-Ensures,
  parse_get_node_property-Ensures, parse_get_container_property-Ensures,
  parse_get_system_status-Ensures, parse_request_product_information-Ensures,
  parse_request_specification_version-Ensures, parse_reset_mode-Ensures,
  parse_get_container_id-Ensures,
}
use felica_rs.Command.Parse.Dispatch.{
  parse_command, parse_payload, parse_frame, parse_secure_read, parse_secure_write,
  parse_register_issue_id, parse_register_node, parse_secure_payload, is_secure_command_code,
}

parse_command-Ensures :
    (command : ℕ) (body : List ℕ)
    → All IsByte body
    → Ensures (IsParsed (length body)) (parse_command command body)
unfolding parse_command
parse_command-Ensures command body h =
    Ensures-if (command == Constants.polling_command_code) (parse_polling-Ensures body h) (
      Ensures-if (command == Constants.request_service_command_code)
        (parse_request_service-Ensures body h)
        (Ensures-if (command == Constants.request_response_command_code)
          (parse_request_response-Ensures body h)
          (Ensures-if (command == Constants.read_without_encryption_command_code)
            (parse_read_without_encryption-Ensures body h)
            (Ensures-if (command == Constants.write_without_encryption_command_code)
              (parse_write_without_encryption-Ensures body h)
              (Ensures-if (command == Constants.search_service_code_command_code)
                (parse_search_service_code-Ensures body h)
                (Ensures-if (command == Constants.request_system_code_command_code)
                  (parse_request_system_code-Ensures body h)
                  (Ensures-if (command == Constants.request_block_information_command_code)
                    (parse_request_block_information-Ensures body h)
                    (Ensures-if (command == Constants.authentication1_command_code)
                      (parse_authentication1-Ensures body h)
                      (Ensures-if (command == Constants.authentication2_command_code)
                        (parse_authentication2-Ensures body h)
                        (Ensures-if (command == Constants.authentication1_v2_command_code)
                          (parse_authentication1_v2-Ensures body h)
                          (Ensures-if (command == Constants.authentication2_v2_command_code)
                            (parse_authentication2_v2-Ensures body h)
                            (Ensures-if (command == Constants.request_code_list_command_code)
                              (parse_request_code_list-Ensures body h)
                              (Ensures-if
                                (command == Constants.request_block_information_ex_command_code)
                                (parse_request_block_information_ex-Ensures body h)
                                (Ensures-if (command == Constants.set_parameter_command_code)
                                  (parse_set_parameter-Ensures body h)
                                  (Ensures-if
                                    (command
                                      == Constants.get_container_issue_information_command_code)
                                    (parse_get_container_issue_information-Ensures body h)
                                    (Ensures-if
                                      (command == Constants.get_area_information_command_code)
                                      (parse_get_area_information-Ensures body h)
                                      (Ensures-if
                                        (command == Constants.get_node_property_command_code)
                                        (parse_get_node_property-Ensures body h)
                                        (Ensures-if
                                          (command == Constants.get_container_property_command_code)
                                          (parse_get_container_property-Ensures body h)
                                          (Ensures-if
                                            (command == Constants.request_service_v2_command_code)
                                            (parse_request_service_v2-Ensures body h)
                                            (Ensures-if
                                              (command == Constants.get_system_status_command_code)
                                              (parse_get_system_status-Ensures body h)
                                              (Ensures-if
                                                (command
                                                  == Constants.request_product_information_command_code)
                                                (parse_request_product_information-Ensures body h)
                                                (Ensures-if
                                                  (command
                                                    == Constants.request_specification_version_command_code)
                                                  (parse_request_specification_version-Ensures body
                                                    h)
                                                  (Ensures-if
                                                    (command == Constants.reset_mode_command_code)
                                                    (parse_reset_mode-Ensures body h)
                                                    (Ensures-if
                                                      (command
                                                        == Constants.get_container_id_command_code)
                                                      (parse_get_container_id-Ensures body h)
                                                      (Ensures-if (is_secure_command_code command)
                                                        fails fails)))))))))))))))))))))))))

-- A frame of bytes is parsed without a panic. A command that it yields is one that is framed
-- outside a session, has its fields in range, and takes no more room than the frame.
pub parse_frame-Ensures :
    (frame : List ℕ)
    → All IsByte frame
    → Ensures
        (λ c.
          IsValid c
          × (is_secure c ≡ false)
          × (length (fields c) + 2 ≤ length frame)
          × (length frame ≤ 255))
        (parse_frame frame)
unfolding parse_frame parse_payload
parse_frame-Ensures [] h = fails
parse_frame-Ensures (n ∷ []) h = Ensures-ensure _ λ t. fails
parse_frame-Ensures (n ∷ command ∷ body) (hn, (hc, hb)) = Ensures-ensure _ λ t.
    Ensures-mono (parse_command-Ensures command body hb)
      λ c p. (p.0, p.1, omega (arith, p.2), omega (arith, ==→eq _ _ t))

secure_read-Ensures :
    (command : List BlockListElement → FelicaStandardCommand) (payload : List ℕ)
    → ((bs : List BlockListElement) → Counted IsElement 1 max_block_count bs → IsValid (command bs))
    → All IsByte payload
    → Ensures IsValid (parse_secure_read command payload)
unfolding parse_secure_read
secure_read-Ensures command payload v h =
    Ensures-bind (take_count-Ensures payload 1 max_block_count _ _ h) λ (n, rest₁) k.
      Ensures-bind (take_block_list-Ensures rest₁ n k.2)
        λ (bs, rest₂) q. returns (v bs (omega (arith, q.0, k.0), omega (arith, q.0, k.1), q.1))

secure_write-Ensures :
    (command : List BlockListElement → List ℕ → FelicaStandardCommand) (payload : List ℕ)
    → ((bs : List BlockListElement) (block_data : List ℕ)
        → Counted IsElement 1 max_block_count bs
        → IsBytes (length bs * block_size) block_data
        → IsValid (command bs block_data))
    → All IsByte payload
    → Ensures IsValid (parse_secure_write command payload)
unfolding parse_secure_write
secure_write-Ensures command payload v h =
    Ensures-bind (take_count-Ensures payload 1 max_block_count _ _ h) λ (n, rest₁) k.
      Ensures-bind (take_block_list-Ensures rest₁ n k.2) λ (bs, rest₂) q.
        Ensures-bind (get_to-Ensures (n * block_size) rest₂ _ q.2) λ block_data g. returns (
          v bs block_data (omega (arith, q.0, k.0), omega (arith, q.0, k.1), q.1)
            (omega (arith, g.0, q.0), g.1))

register_issue_id-Ensures :
    (payload : List ℕ) → All IsByte payload → Ensures IsValid (parse_register_issue_id payload)
unfolding parse_register_issue_id
register_issue_id-Ensures payload h = Ensures-ensure _ λ t.
    let long : 16 ≤ length payload = ground arith in
    Ensures-bind (slice_to-Ensures 8 payload h (omega arith)) λ issue_id a.
      Ensures-bind (slice_from-Ensures 8 payload h (omega arith)) λ rest b.
        Ensures-bind (slice_to-Ensures 8 rest b.1 (omega arith)) λ parameter c.
          Ensures-bind (slice_from-Ensures 16 payload h long) λ issue_package d. returns (a, c, d.1)

register_node-Ensures :
    (command : ℕ → List ℕ → FelicaStandardCommand) (message : String) (payload : List ℕ)
    → ((code : ℕ) (p : List ℕ) → IsWord code → All IsByte p → IsValid (command code p))
    → All IsByte payload
    → Ensures IsValid (parse_register_node command message payload)
unfolding parse_register_node
register_node-Ensures command message payload v h = Ensures-ensure _ λ t.
    let long : 2 ≤ length payload = ground arith in
    Ensures-bind (index-Ensures payload 0 h (omega arith)) λ b0 p0.
      Ensures-bind (index-Ensures payload 1 h (omega arith)) λ b1 p1.
        Ensures-bind (slice_from-Ensures 2 payload h long)
          λ issue_package d. returns (v _ issue_package (from_le_bytes-IsWord b0 b1 p0 p1) d.1)

-- The decrypted payload of a session command is parsed without a panic, into fields in range.
pub parse_secure_payload-Ensures :
    (command_code : ℕ) (payload : List ℕ)
    → All IsByte payload
    → Ensures IsValid (parse_secure_payload command_code payload)
unfolding parse_secure_payload
parse_secure_payload-Ensures c payload h =
    Ensures-if (c == Constants.read_command_code) (secure_read-Ensures read payload (λ bs p. p) h) (
      Ensures-if (c == Constants.read_v2_command_code)
        (secure_read-Ensures read_v2 payload (λ bs p. p) h)
        (Ensures-if (c == Constants.write_command_code)
          (secure_write-Ensures write payload (λ bs d p q. (p, q)) h)
          (Ensures-if (c == Constants.write_v2_command_code)
            (secure_write-Ensures write_v2 payload (λ bs d p q. (p, q)) h)
            (Ensures-if (c == Constants.register_issue_id_command_code)
              (register_issue_id-Ensures payload h)
              (Ensures-if (c == Constants.register_area_command_code)
                (register_node-Ensures register_area _ payload (λ x p a b. (a, b)) h)
                (Ensures-if (c == Constants.register_service_command_code)
                  (register_node-Ensures register_service _ payload (λ x p a b. (a, b)) h)
                  (Ensures-if (c == Constants.change_system_block_command_code)
                    (Ensures-ensure _ λ t. returns tt) fails)))))))
