-- ===== src/Protocol/Lists.antt =====
-- The lists in the records of the plugin have elements of one shape.
use skygraph.Prelude.{
  ℕ, ◌≡◌, refl, String, Bool, true, false, ◌&&◌, Option, none, some, List, [], ◌∷◌,
}
use skygraph.Attribution.{Entry}
use skygraph.Plugin.Records.{lookup}
use skygraph.Frame.Json.{top_json}
use skygraph.Samplers.Papyrus.{scripts_of}
use skygraph.Events.{masters_of, files_of}
use skygraph.Protocol.{string, whole, number, list_of, members_of, member, no_more, fits, each}

pub and-both : (a b : Bool) → a ≡ true → b ≡ true → (a && b) ≡ true
and-both true b p q = q
and-both false b p q = p

module _ (D : Type 0) where
  pub top-each :
      (es : List Entry)
      → each {D = D}
          (fits (members_of (member "name" string (member "us" whole no_more))))
          (top_json es)
        ≡ true
  unfolding top_json fits lookup
  top-each [] = refl
  top-each (e ∷ es) = top-each es

  pub scripts-each :
      (cps pct : Entry → D → D) (scaled : D → ℕ → ℕ) (p q : D → Bool)
      (sort : ℕ → List Entry → List Entry) (decay period : D) (es : List Entry)
      → each
          (fits (
            members_of (
              member "name" string (
                member "us_window" whole
                  (member "cps" number (member "pct_frame" number no_more))))))
          (scripts_of cps pct scaled p q sort decay period es)
        ≡ true
  unfolding scripts_of fits lookup
  scripts-each cps pct scaled p q sort decay period [] = refl
  scripts-each cps pct scaled p q sort decay period (e ∷ es) =
      scripts-each cps pct scaled p q sort decay period es

  masters-each : (ms : List (Option String)) → each {D = D} (fits string) (masters_of ms) ≡ true
  unfolding masters_of fits
  masters-each [] = refl
  masters-each (none ∷ ms) = masters-each ms
  masters-each (some m ∷ ms) = masters-each ms

  pub files-each :
      (fs : List (Option (String × List (Option String))))
      → each {D = D}
          (fits (members_of (member "name" string (member "masters" (list_of string) no_more))))
          (files_of fs)
        ≡ true
  unfolding files_of fits lookup
  files-each [] = refl
  files-each (none ∷ fs) = files-each fs
  files-each (some (name, masters) ∷ fs) =
      and-both _ _ (and-both _ true (masters-each masters) refl) (files-each fs)
