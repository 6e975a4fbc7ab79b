-- ===== src/Processor/Rdns.antt =====
-- `check_rdns` of `src/processor/service.py`.
use mail_tester.Prelude.{
  ◌++◌, Bool, true, false, Option, none, some, List, [], ◌∷◌, any, Text, codes, rstrip, is_dot,
  ◌=ᵗ◌,
}
use mail_tester.Processor.Dns.{Dns, answers, nxdomain, no_answer, no_nameservers, timeout, other}
use mail_tester.Processor.Blacklists.{reversed_ip}

pub record RdnsCheck : Type 0 where
  pub success : Option Bool
  pub hostname : Option Text
  pub forward_ips : List Text
  pub matches : Option Bool
  pub error : Option Text

abbrev pub absent : RdnsCheck
absent = record {
  success = some false;
  hostname = none;
  forward_ips = [];
  matches = some false;
  error = none;
}

abbrev pub failed : Text → RdnsCheck
failed e = record {
  success = none;
  hostname = none;
  forward_ips = [];
  matches = none;
  error = some e;
}

abbrev pub resolved : Text → List Text → Option Bool → RdnsCheck
resolved h ips matches = record {
  success = some true;
  hostname = some h;
  forward_ips = ips;
  matches = matches;
  error = none;
}

-- `ip in forward_ips`
abbrev pub is_among : Text → List Text → Bool
is_among ip ips = any (λ a. ip =ᵗ a) ips

-- The second lookup: does the name lead back to the address.
unfoldable pub check_forward : Dns → Text → Text → RdnsCheck
check_forward dns ip h = elim (dns.resolve_a h) [
  | answers ips ↦ resolved h ips (some (is_among ip ips))
  | nxdomain ↦ resolved h [] (some false)
  | no_answer ↦ resolved h [] (some false)
  | no_nameservers ↦ resolved h [] none
  | timeout ↦ resolved h [] none
  | other e ↦ resolved h [] none
]

abbrev pub ptr_name : Text → Text
ptr_name ip = reversed_ip ip ++ codes ".in-addr.arpa"

abbrev forward_of : Dns → Text → List Text → RdnsCheck
forward_of dns ip [] = failed (codes "IndexError")
forward_of dns ip (name ∷ names) = check_forward dns ip (rstrip is_dot name)

unfoldable pub check_rdns : Dns → Text → RdnsCheck
unfolding check_forward
check_rdns dns ip = elim (dns.resolve_ptr (ptr_name ip)) [
  | answers names ↦ forward_of dns ip names
  | nxdomain ↦ absent
  | no_answer ↦ absent
  | no_nameservers ↦ failed (codes "NoNameservers")
  | timeout ↦ failed (codes "LifetimeTimeout")
  | other e ↦ failed e
]
