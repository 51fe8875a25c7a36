-- ===== src/Dns/Apply.antt =====
-- Applying the override: it settles, and what switching it off leaves undone.
use cf_masque_opnsense.Prelude.{
  ◌≡◌, ◌∙◌, true, Option, none, some, List, if◌then◌else◌, Bool-cases, inl, inr, ◌⊎◌,
}
use cf_masque_opnsense.Text.{Text, text_eq}
use cf_masque_opnsense.Text.Equality.{text_eq→eq, text_eq_refl}
use cf_masque_opnsense.Outcome.{ok}
use cf_masque_opnsense.Config.{Config, DnsConfig}
use cf_masque_opnsense.Files.{Content, object, xml, plain, read, write, replace}
use cf_masque_opnsense.Files.Laws.{read-unlink_self, read-staged}
use cf_masque_opnsense.Process.{Os, World, config_of, config_file}
use cf_masque_opnsense.Dns.{
  override_disabled, no_change, applied, unbound_conf, unbound_tmp, wanted, install, apply_dns,
  remove_conf, reload_unbound, build_unbound_conf, is_text,
}

is_text→eq : (o : Option Content) (t : Text) → is_text o t ≡ true → o ≡ some (plain t)
is_text→eq none t h = cc
is_text→eq (some (plain u)) t h = rw (text_eq→eq t u h)
is_text→eq (some (object d)) t h = cc
is_text→eq (some (xml e)) t h = cc

module _ (os : Os) where
  open os use {Sys, run}

  -- With the override off, the file is gone and Unbound is not told: the system is as it was.
  apply_wanted_off :
      (w : World Sys) (cfg : Config)
      → config_of w.files ≡ ok cfg
      → wanted cfg ≡ none
      → ((apply_dns os w).0 ≡ ok override_disabled)
        × (read unbound_conf (apply_dns os w).1.files ≡ none)
        × ((apply_dns os w).1.sys ≡ w.sys)
  unfolding apply_dns remove_conf
  apply_wanted_off w cfg c e = (
    rw (c, apply_dns) (rw e),
    rw (c, apply_dns) (rw e (read-unlink_self unbound_conf w.files)),
    rw (c, apply_dns) (rw e),
  )

  settled :
      (w : World Sys) (cfg : Config) (dns : DnsConfig)
      → config_of w.files ≡ ok cfg
      → wanted cfg ≡ some dns
      → read unbound_conf w.files ≡ some (plain (build_unbound_conf dns))
      → apply_dns os w ≡ (ok no_change, w)
  unfolding apply_dns install
  settled w cfg dns c e r = rw (c, apply_dns) (rw e (rw (r, text_eq_refl)))

  module _
      (run_files : (command : List Text) (w : World Sys) → (run command w).files ≡ w.files) where
    staged_world : Text → World Sys → World Sys
    staged_world t w = reload_unbound os (record w {
      files = replace unbound_tmp unbound_conf (write unbound_tmp (plain t) w.files);
    })

    staged_files :
        (t q : Text) (w : World Sys)
        → read q (staged_world t w).files ≡ (
            if text_eq unbound_conf q
            then some (plain t)
            else if text_eq unbound_tmp q
            then none
            else read q w.files)
    unfolding staged_world reload_unbound
    staged_files t q w = rw run_files (read-staged unbound_tmp unbound_conf q (plain t) w.files)

    staged_config :
        (t : Text) (w : World Sys) → config_of (staged_world t w).files ≡ config_of w.files
    unfolding config_of text_eq
    staged_config t w = rw (staged_files t config_file w)

    installed :
        (t : Text) (w : World Sys)
        → ((install os t w ≡ (no_change, w)) × (read unbound_conf w.files ≡ some (plain t)))
          ⊎ (install os t w ≡ (applied, staged_world t w))
    unfolding install staged_world
    installed t w = elim (Bool-cases (is_text (read unbound_conf w.files) t)) [
      | inl b ↦ inl (rw b, is_text→eq (read unbound_conf w.files) t b)
      | inr b ↦ inr (rw b)
    ]

    apply_dns-install :
        (w : World Sys) (cfg : Config) (dns : DnsConfig)
        → config_of w.files ≡ ok cfg
        → wanted cfg ≡ some dns
        → (apply_dns os w).1 ≡ (install os (build_unbound_conf dns) w).1
    unfolding apply_dns
    apply_dns-install w cfg dns c e = rw (c, apply_dns) (rw e)

    -- With the override on, the file holds the generated text after one application, and a second
    -- application finds nothing to do and changes nothing.
    pub apply_dns_settles :
        (w : World Sys) (cfg : Config) (dns : DnsConfig)
        → config_of w.files ≡ ok cfg
        → wanted cfg ≡ some dns
        → (read unbound_conf (apply_dns os w).1.files ≡ some (plain (build_unbound_conf dns)))
          × (apply_dns os (apply_dns os w).1 ≡ (ok no_change, (apply_dns os w).1))
    apply_dns_settles w cfg dns c e =
        rw (apply_dns-install w cfg dns c e) (elim (installed (build_unbound_conf dns) w) [
          | inl same ↦ rw same.0 (same.1, settled w cfg dns c e same.1)
          | inr new ↦
              let r = staged_files (build_unbound_conf dns) unbound_conf w ∙ rw text_eq_refl in
              rw new (
                r,
                settled (staged_world (build_unbound_conf dns) w) cfg dns
                    (staged_config (build_unbound_conf dns) w ∙ c) e r,
              )
        ])
