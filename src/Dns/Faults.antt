-- ===== src/Dns/Faults.antt =====
-- What DNS(buf) of dpkt/dns.py raises.
use dpkt_ng.Base.{◌≡◌, Bool, true, false}
use dpkt_ng.Base.Results.{
  Error, Outcome, returns, raises, need_data, unpack_error, pack_error, struct_error, index_error,
  unicode_error, attribute_error, type_error, stuck,
}

-- need_data, unpack_error and unicode_error
abbrev pub is_dns_fault : Error → Bool
is_dns_fault need_data = true
is_dns_fault unpack_error = true
is_dns_fault unicode_error = true
is_dns_fault struct_error = false
is_dns_fault pack_error = false
is_dns_fault index_error = false
is_dns_fault attribute_error = false
is_dns_fault type_error = false
is_dns_fault stuck = false

abbrev pub OnlyDnsFaults {ℓ} : {A : Type ℓ} → Outcome A → Type 0
OnlyDnsFaults (returns a) = Unit
OnlyDnsFaults (raises e) = is_dns_fault e ≡ true
