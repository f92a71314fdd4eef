-- ===== src/Rules/Defs.antt =====
-- local/include/core/verification.h and local/src/core/verification.cc: the rule classes, their
-- constructors, and the parts of a diagnostic that depend on the rule.
use Prim.Native.String.{String}
use proxy_verifier.Base.{Bytes, Bool, not, List, [], codes, if◌then◌else◌}

-- `UrlPart`; `UrlPartCount` is the same value as `error`.
pub data UrlPart : Type 0 where
  scheme host port authority path query fragment error : UrlPart

-- `URL_PART_NAMES[part]`, the primary name.
unfoldable pub url_part_name : UrlPart → Bytes
url_part_name scheme = codes "scheme"
url_part_name host = codes "host"
url_part_name port = codes "port"
url_part_name authority = codes "net-loc"
url_part_name path = codes "path"
url_part_name query = codes "query"
url_part_name fragment = codes "fragment"
url_part_name error = []

-- The members of `RuleCheck`.
pub record RuleBase : Type 0 where
  pub name : Bytes
  pub is_field : Bool
  pub is_inverted : Bool
  pub is_nocase : Bool

-- What the checks that compare values add.
pub record Expected : Type 0 where
  pub value : Bytes
  pub values : List Bytes
  pub duplicates : Bool

-- The kinds of `SubstrCheck`.
pub data SubstrKind : Type 0 where
  contains prefix suffix : SubstrKind

-- The subclasses of `RuleCheck`; the flag of the second and third is `_expects_duplicate_fields`.
pub data RuleCheck : Type 0 where
  equality : RuleBase → Expected → RuleCheck
  presence : RuleBase → Bool → RuleCheck
  absence : RuleBase → Bool → RuleCheck
  substr : SubstrKind → RuleBase → Expected → RuleCheck

unfoldable pub rule_base : RuleCheck → RuleBase
rule_base (equality b e) = b
rule_base (presence b d) = b
rule_base (absence b d) = b
rule_base (substr k b e) = b

-- `expects_duplicate_fields`
unfoldable pub expects_duplicate_fields : RuleCheck → Bool
expects_duplicate_fields (equality b e) = e.duplicates
expects_duplicate_fields (presence b d) = d
expects_duplicate_fields (absence b d) = d
expects_duplicate_fields (substr k b e) = e.duplicates

-- `RuleCheck::target_type`
unfoldable pub target_type : RuleBase → String
target_type b = if b.is_field then "Field Name" else "URI Part"

-- `RuleCheck::get_subtype`
unfoldable pub get_subtype : RuleBase → String
get_subtype b =
    if b.is_inverted
    then (if b.is_nocase then "Not No Case " else "Not ")
    else (if b.is_nocase then "No Case " else "")

-- `RuleCheck::invert_result`
unfoldable pub invert_result : RuleBase → Bool → String
invert_result b success =
    if b.is_inverted
    then (if success then "Violation" else "Success")
    else (if success then "Success" else "Violation")

-- `RuleCheck::invert_if_applicable`
unfoldable pub invert_if_applicable : RuleBase → Bool → Bool
invert_if_applicable b input = if b.is_inverted then not input else input
