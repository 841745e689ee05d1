-- ===== src/Highlight.antt =====
-- internal/highlight/highlight.go: the store of highlight profiles. `regexp.Compile` is Go's library:
-- `compiles` says whether it takes a pattern.
pub mod Profiles
use rdw.Common.{
  if◌then◌else◌, is_present, length, Dict, lookup, insert, remove, Result, ok, err, Text, is_empty,
  ℕ, suc, Bool, not, Option, List, [], ◌∷◌, map,
}

pub record Rule : Type 0 where
  pub pattern : Text
  pub css_class : Text

pub record Profile : Type 0 where
  pub name : Text
  pub rules : List Rule

abbrev pub ProfileStore : Type 0
ProfileStore = Dict Profile

pub data HighlightError : Type 0 where
  empty_profile_name profile_not_found : HighlightError
  bad_pattern empty_class : ℕ → HighlightError

module _ (compiles : Text → Bool) where
  pub check_rules : ℕ → List Rule → Result HighlightError Unit
  check_rules i [] = ok tt
  check_rules i (r ∷ rs) =
      let rest = check_rules (suc i) rs in
      if not (compiles r.pattern)
      then err (bad_pattern i)
      else if is_empty r.css_class
      then err (empty_class i)
      else rest

  abbrev add_checked :
      Profile
      → ProfileStore
      → Result HighlightError Unit
      → ProfileStore × Result HighlightError Unit
  add_checked p s (err e) = (s, err e)
  add_checked p s (ok tt) = (insert p.name p s, ok tt)

  pub add_profile : Profile → ProfileStore → ProfileStore × Result HighlightError Unit
  add_profile p s =
      if is_empty p.name
      then (s, err empty_profile_name)
      else add_checked p s (check_rules 0 p.rules)

pub remove_profile : Text → ProfileStore → ProfileStore × Result HighlightError Unit
remove_profile name s =
    if is_present (lookup name s) then (remove name s, ok tt) else (s, err profile_not_found)

unfoldable pub get_profile : Text → ProfileStore → Option Profile
get_profile name s = lookup name s

unfoldable pub all_profiles : ProfileStore → List Profile
all_profiles s = map (λ e. e.1) s

unfoldable profile_count : ProfileStore → ℕ
profile_count s = length s
