-- ===== src/Packets/Properties/Unpack/Steps.antt =====
-- The loop of Unpack, one property at a time: its equation without fuel, and that the fuel is enough.
use paho_golang.Common.{
  ℕ, zero, suc, ◌≤◌, ◌≡◌, refl, ◌∙◌, [], ◌∷◌, ◌++◌, append_assoc, length, arith, true,
  if◌then◌else◌, ◌==◌, some, inl, inr, Bool,
}
use paho_golang.Common.Int.{pos}
use paho_golang.Packets.Result.{Result-cases, Bytes, Reader, ok, unknown_prop, ◌>>=◌}
use paho_golang.Packets.Wire.{
  read_byte, read_uint16, read_uint32, read_string, read_binary, decode_vbi,
}
use paho_golang.Packets.Wire.Progress.{
  Shrinks, bind-Shrinks, ok-Shrinks, err-Shrinks, if-Shrinks, read_byte-Shrinks,
  read_uint16-Shrinks, read_uint32-Shrinks, read_string-Shrinks, read_binary-Shrinks,
  decode_vbi-Shrinks,
}
use paho_golang.Packets.Properties.{
  Properties, validate_id, prop_payload_format, prop_message_expiry, prop_content_type,
  prop_response_topic, prop_correlation_data, prop_subscription_identifier,
  prop_session_expiry_interval, prop_assigned_client_id, prop_server_keep_alive, prop_auth_method,
  prop_auth_data, prop_request_problem_info, prop_will_delay_interval, prop_request_response_info,
  prop_response_info, prop_server_reference, prop_reason_string, prop_receive_maximum,
  prop_topic_alias_maximum, prop_topic_alias, prop_maximum_qos, prop_retain_available, prop_user,
  prop_maximum_packet_size, prop_wildcard_sub_available, prop_sub_id_available,
  prop_shared_sub_available,
}
use paho_golang.Packets.Properties.Unpack.{
  fill, read_user, read_prop, unpack_prop, unpack_loop, unpack_all,
}

fill-Shrinks : {A : Type 0} (r : Reader A) (set : A → Properties) → Shrinks r → Shrinks (fill r set)
unfolding fill
fill-Shrinks r set h = bind-Shrinks r _ h (λ a. ok-Shrinks (set a))

read_user-Shrinks : Shrinks read_user
unfolding read_user
read_user-Shrinks =
    bind-Shrinks read_string _ read_string-Shrinks
      λ k. bind-Shrinks read_string _ read_string-Shrinks λ v. ok-Shrinks _

by_fill :
    {A : Type 0} (r : Reader A) (set : A → Properties) (c : Bool) (s : Reader Properties)
    → Shrinks r
    → Shrinks s
    → Shrinks (if c then fill r set else s)
by_fill r set c s hr hs = if-Shrinks c (fill r set) s (fill-Shrinks r set hr) hs

read_prop-Shrinks : (t : ℕ) (i : Properties) → Shrinks (read_prop t i)
unfolding read_prop
read_prop-Shrinks t i =
    by_fill read_byte (λ v. record i { payload_format = some v }) (t == prop_payload_format) _
      read_byte-Shrinks
      (by_fill read_uint32 (λ v. record i { message_expiry = some v }) (t == prop_message_expiry) _
        read_uint32-Shrinks
        (by_fill read_string (λ v. record i { content_type = v }) (t == prop_content_type) _
          read_string-Shrinks
          (by_fill read_string (λ v. record i { response_topic = v }) (t == prop_response_topic) _
            read_string-Shrinks
            (by_fill read_binary (λ v. record i { correlation_data = v })
              (t == prop_correlation_data) _ read_binary-Shrinks
              (by_fill decode_vbi (λ v. record i { subscription_identifier = some (pos v) })
                (t == prop_subscription_identifier) _ decode_vbi-Shrinks
                (by_fill read_uint32 (λ v. record i { session_expiry_interval = some v })
                  (t == prop_session_expiry_interval) _ read_uint32-Shrinks
                  (by_fill read_string (λ v. record i { assigned_client_id = v })
                    (t == prop_assigned_client_id) _ read_string-Shrinks
                    (by_fill read_uint16 (λ v. record i { server_keep_alive = some v })
                      (t == prop_server_keep_alive) _ read_uint16-Shrinks
                      (by_fill read_string (λ v. record i { auth_method = v })
                        (t == prop_auth_method) _ read_string-Shrinks
                        (by_fill read_binary (λ v. record i { auth_data = v }) (t == prop_auth_data)
                          _ read_binary-Shrinks
                          (by_fill read_byte (λ v. record i { request_problem_info = some v })
                            (t == prop_request_problem_info) _ read_byte-Shrinks
                            (by_fill read_uint32 (λ v. record i { will_delay_interval = some v })
                              (t == prop_will_delay_interval) _ read_uint32-Shrinks
                              (by_fill read_byte (λ v. record i { request_response_info = some v })
                                (t == prop_request_response_info) _ read_byte-Shrinks
                                (by_fill read_string (λ v. record i { response_info = v })
                                  (t == prop_response_info) _ read_string-Shrinks
                                  (by_fill read_string (λ v. record i { server_reference = v })
                                    (t == prop_server_reference) _ read_string-Shrinks
                                    (by_fill read_string (λ v. record i { reason_string = v })
                                      (t == prop_reason_string) _ read_string-Shrinks
                                      (by_fill read_uint16
                                        (λ v. record i { receive_maximum = some v })
                                        (t == prop_receive_maximum) _ read_uint16-Shrinks
                                        (by_fill read_uint16
                                          (λ v. record i { topic_alias_maximum = some v })
                                          (t == prop_topic_alias_maximum) _ read_uint16-Shrinks
                                          (by_fill read_uint16
                                            (λ v. record i { topic_alias = some v })
                                            (t == prop_topic_alias) _ read_uint16-Shrinks
                                            (by_fill read_byte
                                              (λ v. record i { maximum_qos = some v })
                                              (t == prop_maximum_qos) _ read_byte-Shrinks
                                              (by_fill read_byte
                                                (λ v. record i { retain_available = some v })
                                                (t == prop_retain_available) _ read_byte-Shrinks
                                                (by_fill read_user
                                                  (λ v. record i { user = i.user ++ v ∷ [] })
                                                  (t == prop_user) _ read_user-Shrinks
                                                  (by_fill read_uint32
                                                    (λ v. record i { maximum_packet_size = some v })
                                                    (t == prop_maximum_packet_size) _
                                                    read_uint32-Shrinks
                                                    (by_fill read_byte
                                                      (λ v. record i {
                                                        wildcard_sub_available = some v;
                                                      })
                                                      (t == prop_wildcard_sub_available) _
                                                      read_byte-Shrinks
                                                      (by_fill read_byte
                                                        (λ v. record i {
                                                          sub_id_available = some v;
                                                        })
                                                        (t == prop_sub_id_available) _
                                                        read_byte-Shrinks
                                                        (by_fill read_byte
                                                          (λ v. record i {
                                                            shared_sub_available = some v;
                                                          })
                                                          (t == prop_shared_sub_available) _
                                                          read_byte-Shrinks
                                                          (err-Shrinks (
                                                            unknown_prop
                                                            t))))))))))))))))))))))))))))

unpack_prop_bound :
    (p t : ℕ) (i : Properties) (bs : Bytes) (j : Properties) (rest : Bytes)
    → unpack_prop p t i bs ≡ ok (j, rest)
    → length rest ≤ length bs
unfolding unpack_prop
unpack_prop_bound p t i bs j rest e = ground (arith, (read_prop-Shrinks t i).bound bs j rest)

-- With fuel for the bytes that are left, how much there is makes no difference.
unpack_loop_fuel :
    (f g p : ℕ) (bs : Bytes) (i : Properties)
    → length bs ≤ f
    → length bs ≤ g
    → unpack_loop f p bs i ≡ unpack_loop g p bs i
unfolding unpack_loop
unpack_loop_fuel f g p [] i hf hg = refl
unpack_loop_fuel zero g p (t ∷ bs) i hf hg = absurd (omega arith)
unpack_loop_fuel (suc f) zero p (t ∷ bs) i hf hg = absurd (omega arith)
unpack_loop_fuel (suc f) (suc g) p (t ∷ bs) i hf hg = elim (Result-cases (unpack_prop p t i bs)) [
  | inl (r, e) ↦ rw e (
      unpack_loop_fuel f g p r.1 r.0 (omega (arith, unpack_prop_bound p t i bs r.0 r.1 e))
        (omega (arith, unpack_prop_bound p t i bs r.0 r.1 e)))
  | inr (x, e) ↦ rw e
]

-- The loop as it reads in Go.
pub unpack_all-nil : (p : ℕ) (i : Properties) → unpack_all p [] i ≡ ok i
unfolding unpack_all unpack_loop
unpack_all-nil p i = refl

pub unpack_all-cons :
    (p t : ℕ) (bs : Bytes) (i : Properties)
    → unpack_all p (t ∷ bs) i ≡ (unpack_prop p t i bs >>= λ r. unpack_all p r.1 r.0)
unfolding unpack_all unpack_loop
unpack_all-cons p t bs i = elim (Result-cases (unpack_prop p t i bs)) [
  | inl (r, e) ↦ rw e (
      unpack_loop_fuel (length bs) (length r.1) p r.1 r.0 (unpack_prop_bound p t i bs r.0 r.1 e)
        (omega arith))
  | inr (x, e) ↦ rw e
]

-- The bytes `s` stand for a change `f` of the properties, whatever follows them.
abbrev pub Sets : ℕ → Bytes → (Properties → Properties) → Type 0
Sets p s f = (rest : Bytes) (i : Properties) → unpack_all p (s ++ rest) i ≡ unpack_all p rest (f i)

pub Sets-append :
    (p : ℕ) (s t : Bytes) (f g : Properties → Properties)
    → Sets p s f
    → Sets p t g
    → Sets p (s ++ t) (λ i. g (f i))
Sets-append p s t f g hs ht rest i = rw (append_assoc s t rest) (hs (t ++ rest) i ∙ ht rest (f i))

-- One property, from what its reader does.
pub Sets-prop :
    (p t : ℕ) (s : Bytes) (f : Properties → Properties)
    → validate_id p t ≡ true
    → ((rest : Bytes) (i : Properties) → read_prop t i (s ++ rest) ≡ ok (f i, rest))
    → Sets p (t ∷ s) f
unfolding unpack_prop
Sets-prop p t s f v h rest i = rw (unpack_all-cons p t (s ++ rest) i, v, h rest i)
