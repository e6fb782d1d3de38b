-- ===== src/Station/Texts.antt =====
-- The texts of the audits (include/hnzutility.h, and their callers in src/hnzpath.cpp, src/hnz.cpp and
-- src/hnzconnection.cpp).
use Prim.Native.String.{len, slice, ◌++◌}
use text.Mathlib.TextLemmas.{append_assoc}
use text.Mathlib.TextPositions.{len-append, slice-append_middle}
use fledge_south_hnz.Prelude.{
  ◌+◌, ◌-◌, ◌≡◌, refl, ap, ◌∙◌, Bool, true, if◌then◌else◌, String, str_eq, Option, none, some,
  arith,
}
use fledge_south_hnz.State.Link.{PathId, path_a, path_b}
use fledge_south_hnz.State.Station.{
  Audit, service_success, service_fail, path_active, path_passive, path_fail, path_unused,
}

-- What AuditLogger of Fledge is asked to log.
pub record AuditLog : Type 0 where
  pub code : String
  pub level : String
  pub message : String

-- `m_addQuotes`.
unfoldable pub add_quotes : String → Bool → String
add_quotes str with_quotes = if with_quotes then ("\"" ++ str) ++ "\"" else str

-- `m_toJsonMessage`.
unfoldable pub to_json_message : String → String
to_json_message str = ("{\"message\":" ++ str) ++ "}"

unfoldable pub audit_log : String → String → String → Bool → AuditLog
unfolding add_quotes to_json_message
audit_log level code text with_quotes = record {
  code = code;
  level = level;
  message = to_json_message (add_quotes text with_quotes);
}

unfoldable pub audit_fail : String → String → Bool → AuditLog
unfolding audit_log
audit_fail code text with_quotes = audit_log "FAILURE" code text with_quotes

unfoldable pub audit_success : String → String → Bool → AuditLog
unfolding audit_log
audit_success code text with_quotes = audit_log "SUCCESS" code text with_quotes

unfoldable pub audit_warn : String → String → Bool → AuditLog
unfolding audit_log
audit_warn code text with_quotes = audit_log "WARNING" code text with_quotes

unfoldable pub audit_info : String → String → Bool → AuditLog
unfolding audit_log
audit_info code text with_quotes = audit_log "INFORMATION" code text with_quotes

abbrev pub path_letter : PathId → String
path_letter path_a = "A"
path_letter path_b = "B"

-- The calls of the audits of a service.
unfoldable pub audit_of : String → Audit → AuditLog
unfolding audit_fail audit_success audit_info
audit_of service service_success = audit_success "SRVFL" (service ++ "-connected") true
audit_of service service_fail = audit_fail "SRVFL" (service ++ "-disconnected") true
audit_of service (path_active i) =
    audit_success "SRVFL" ((((service ++ "-") ++ path_letter i) ++ "-") ++ "active") true
audit_of service (path_passive i) =
    audit_success "SRVFL" ((((service ++ "-") ++ path_letter i) ++ "-") ++ "passive") true
audit_of service (path_fail i) =
    audit_fail "SRVFL" (((service ++ "-") ++ path_letter i) ++ "-disconnected") true
audit_of service (path_unused i) =
    audit_info "SRVFL" (((service ++ "-") ++ path_letter i) ++ "-unused") true

-- What follows the name of the service.
abbrev suffix : Audit → String
suffix service_success = "-connected"
suffix service_fail = "-disconnected"
suffix (path_active path_a) = "-A-active"
suffix (path_active path_b) = "-B-active"
suffix (path_passive path_a) = "-A-passive"
suffix (path_passive path_b) = "-B-passive"
suffix (path_fail path_a) = "-A-disconnected"
suffix (path_fail path_b) = "-B-disconnected"
suffix (path_unused path_a) = "-A-unused"
suffix (path_unused path_b) = "-B-unused"

-- The text of an audit.
abbrev text_of : String → Audit → String
text_of service service_success = service ++ "-connected"
text_of service service_fail = service ++ "-disconnected"
text_of service (path_active i) = (((service ++ "-") ++ path_letter i) ++ "-") ++ "active"
text_of service (path_passive i) = (((service ++ "-") ++ path_letter i) ++ "-") ++ "passive"
text_of service (path_fail i) = ((service ++ "-") ++ path_letter i) ++ "-disconnected"
text_of service (path_unused i) = ((service ++ "-") ++ path_letter i) ++ "-unused"

joined3 : (s a b c : String) → ((s ++ a) ++ b) ++ c ≡ s ++ ((a ++ b) ++ c)
joined3 s a b c = ap (λ t. t ++ c) (append_assoc s a b) ∙ append_assoc s (a ++ b) c

joined4 : (s a b c d : String) → (((s ++ a) ++ b) ++ c) ++ d ≡ s ++ (((a ++ b) ++ c) ++ d)
joined4 s a b c d = ap (λ t. t ++ d) (joined3 s a b c) ∙ append_assoc s ((a ++ b) ++ c) d

text_of-suffix : (service : String) (x : Audit) → text_of service x ≡ service ++ suffix x
text_of-suffix service service_success = refl
text_of-suffix service service_fail = refl
text_of-suffix service (path_active path_a) = joined4 service "-" "A" "-" "active"
text_of-suffix service (path_active path_b) = joined4 service "-" "B" "-" "active"
text_of-suffix service (path_passive path_a) = joined4 service "-" "A" "-" "passive"
text_of-suffix service (path_passive path_b) = joined4 service "-" "B" "-" "passive"
text_of-suffix service (path_fail path_a) = joined3 service "-" "A" "-disconnected"
text_of-suffix service (path_fail path_b) = joined3 service "-" "B" "-disconnected"
text_of-suffix service (path_unused path_a) = joined3 service "-" "A" "-unused"
text_of-suffix service (path_unused path_b) = joined3 service "-" "B" "-unused"

-- The audit of a suffix.
abbrev read_suffix : String → Option Audit
read_suffix s =
    if str_eq s "-connected"
    then some service_success
    else (if str_eq s "-disconnected"
        then some service_fail
        else (if str_eq s "-A-active"
            then some (path_active path_a)
            else (if str_eq s "-B-active"
                then some (path_active path_b)
                else (if str_eq s "-A-passive"
                    then some (path_passive path_a)
                    else (if str_eq s "-B-passive"
                        then some (path_passive path_b)
                        else (if str_eq s "-A-disconnected"
                            then some (path_fail path_a)
                            else (if str_eq s "-B-disconnected"
                                then some (path_fail path_b)
                                else (if str_eq s "-A-unused"
                                    then some (path_unused path_a)
                                    else (if str_eq s "-B-unused"
                                        then some (path_unused path_b)
                                        else none)))))))))

read_suffix-suffix : (x : Audit) → read_suffix (suffix x) ≡ some x
read_suffix-suffix service_success = refl
read_suffix-suffix service_fail = refl
read_suffix-suffix (path_active path_a) = refl
read_suffix-suffix (path_active path_b) = refl
read_suffix-suffix (path_passive path_a) = refl
read_suffix-suffix (path_passive path_b) = refl
read_suffix-suffix (path_fail path_a) = refl
read_suffix-suffix (path_fail path_b) = refl
read_suffix-suffix (path_unused path_a) = refl
read_suffix-suffix (path_unused path_b) = refl

-- A reader of the messages of a service: what stands between its name and the last two characters.
abbrev pub read_audit : String → AuditLog → Option Audit
read_audit service log =
    read_suffix (slice log.message (len ("{\"message\":\"" ++ service)) (len log.message - 2))

message_of :
    (service : String) (x : Audit)
    → (audit_of service x).message ≡ to_json_message (add_quotes (text_of service x) true)
unfolding audit_of
message_of service service_success = refl
message_of service service_fail = refl
message_of service (path_active i) = refl
message_of service (path_passive i) = refl
message_of service (path_fail i) = refl
message_of service (path_unused i) = refl

wrapped :
    (m q s x z : String) → (m ++ ((q ++ (s ++ x)) ++ q)) ++ z ≡ ((m ++ q) ++ s) ++ (x ++ (q ++ z))
wrapped m q s x z = simp append_assoc

message-joined :
    (service : String) (x : Audit)
    → (audit_of service x).message ≡ ("{\"message\":\"" ++ service) ++ (suffix x ++ "\"}")
unfolding to_json_message add_quotes
message-joined service x =
    message_of service x
    ∙ ap (λ t. to_json_message (add_quotes t true)) (text_of-suffix service x)
    ∙ wrapped "{\"message\":" "\"" service (suffix x) "}"

end_of : (h x : String) → len (h ++ (x ++ "\"}")) - 2 ≡ len h + len x
end_of h x =
    let f = len-append h (x ++ "\"}") in
    let g = len-append x "\"}" in let k : len "\"}" ≡ 2 = refl in omega arith

-- The audits of a service tell everything: from the message that goes to Fledge and the name of
-- the service, whatever that is, a reader gets back which path or service has which state.
pub read_audit-audit_of :
    (service : String) (x : Audit) → read_audit service (audit_of service x) ≡ some x
read_audit-audit_of service x =
    let head : String = "{\"message\":\"" ++ service in
    let tail : String = "\"}" in
    ap (λ t. read_suffix (slice t (len head) (len t - 2))) (message-joined service x)
    ∙ ap (λ n. read_suffix (slice (head ++ (suffix x ++ tail)) (len head) n))
        (end_of head (suffix x))
    ∙ ap read_suffix (slice-append_middle head (suffix x) tail)
    ∙ read_suffix-suffix x
