-- ===== src/Processor/Content/Hosts.antt =====
-- `link_hosts` of `src/processor/content.py`: which hosts it gives, and in which order.
use mathlib.Core.List.{append-nil, append_assoc}
use mail_tester.Prelude.{
  ◌≡◌, ◌∙◌, refl, ap, arith, true, ◌||◌, Option, List, [], ◌∷◌, ◌++◌, map, Text, null, ◌=ᵗ◌,
  =ᵗ_sound, Bool-cases, inl, inr, if◌then◌else◌,
}
use mail_tester.Processor.Blacklists.Domains.{distinct, drop_empty, without}
use mail_tester.Processor.Content.{is_in, host_of, add_hosts, link_hosts}

-- The texts that are not among the others.
unfoldable pub others : List Text → List Text → List Text
others hosts [] = []
others hosts (d ∷ ds) = let rest = others hosts ds in if is_in d hosts then rest else d ∷ rest

is_in-append :
    (d : Text) (hosts : List Text) (h : Text)
    → is_in d (hosts ++ h ∷ []) ≡ (is_in d hosts || (d =ᵗ h))
is_in-append d [] h = ground arith
is_in-append d (g ∷ hosts) h = ground (arith, is_in-append d hosts h)

others-append :
    (hosts : List Text) (h : Text) (ds : List Text)
    → others (hosts ++ h ∷ []) ds ≡ others hosts (without h ds)
unfolding others
others-append hosts h [] = refl
others-append hosts h (d ∷ ds) = ground (arith, others-append hosts h ds, is_in-append d hosts h)

is_in-same : (d h : Text) (hosts : List Text) → (d =ᵗ h) ≡ true → is_in d hosts ≡ is_in h hosts
is_in-same d h hosts e = ap (λ t. is_in t hosts) (=ᵗ_sound d h e)

others-without :
    (hosts : List Text) (h : Text) (ds : List Text)
    → is_in h hosts ≡ true
    → others hosts (without h ds) ≡ others hosts ds
unfolding others
others-without hosts h [] e = refl
others-without hosts h (d ∷ ds) e = elim (Bool-cases (d =ᵗ h)) [
  | inl s ↦ ground (arith, others-without hosts h ds e, is_in-same d h hosts s)
  | inr s ↦ ground (arith, others-without hosts h ds e)
]

others-nil : (ds : List Text) → others [] ds ≡ ds
unfolding others
others-nil [] = refl
others-nil (d ∷ ds) = ap (λ r. d ∷ r) (others-nil ds)

module _ (hostname : Text → Option Text) where
  -- The hosts of the links that have one, each at its first place.
  abbrev pub hosts_of : List Text → List Text
  hosts_of urls = distinct (drop_empty (map (host_of hostname) urls))

  add_hosts-others :
      (urls hosts : List Text)
      → add_hosts hostname urls hosts ≡ hosts ++ others hosts (hosts_of urls)
  unfolding add_hosts distinct drop_empty others
  add_hosts-others [] hosts = rw append-nil
  add_hosts-others (url ∷ urls) hosts = elim (Bool-cases (null (host_of hostname url))) [
    | inl e ↦ ground (arith, add_hosts-others urls hosts)
    | inr e ↦ elim (Bool-cases (is_in (host_of hostname url) hosts)) [
      | inl i ↦
          rw
            (
              e,
              i,
              add_hosts-others urls hosts,
              others-without hosts (host_of hostname url) (hosts_of urls) i,
            )
            refl
      | inr i ↦
          rw
            (
              e,
              i,
              add_hosts-others urls (hosts ++ host_of hostname url ∷ []),
              others-append hosts (host_of hostname url) (hosts_of urls),
            )
            (append_assoc hosts (host_of hostname url ∷ [])
              (others hosts (without (host_of hostname url) (hosts_of urls))))
    ]
  ]

  -- The hosts of a mail are those of its links, lower case and without dots at the ends, each once, in
  -- the order in which they first occur; a link whose host is empty or cannot be parsed has none.
  pub link_hosts-distinct : (urls : List Text) → link_hosts hostname urls ≡ hosts_of urls
  unfolding link_hosts
  link_hosts-distinct urls = add_hosts-others urls [] ∙ others-nil (hosts_of urls)
