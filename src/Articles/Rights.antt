-- ===== src/Articles/Rights.antt =====
-- src/lib/mediaRights.ts: who made a file and on what terms it is published. Labels and deeds, which only
-- pages show, are left out, and so are the texts of credit lines and durations.
use article.Prelude.{
  ℕ, Bool, true, false, not, ◌&&◌, Option, none, some, Text, is_empty, trim, if◌then◌else◌,
}

pub data MediaKind : Type 0 where
  image video audio : MediaKind

pub data License : Type 0 where
  own_work permission cc0 cc_by cc_by_sa cc_by_nd cc_by_nc cc_by_nc_sa cc_by_nc_nd public_domain
        other_license :
      License

-- The columns of LICENSES that the rules read.
pub record LicenseInfo : Type 0 where
  pub allows_download : Bool
  pub requires_credit : Bool
  pub requires_note : Bool

abbrev pub terms : Bool → Bool → Bool → LicenseInfo
terms download credit note = record {
  allows_download = download;
  requires_credit = credit;
  requires_note = note;
}

unfoldable pub licenses : License → LicenseInfo
licenses own_work = terms false false false
licenses permission = terms false true true
licenses cc0 = terms true false false
licenses cc_by = terms true true false
licenses cc_by_sa = terms true true false
licenses cc_by_nd = terms true true false
licenses cc_by_nc = terms true true false
licenses cc_by_nc_sa = terms true true false
licenses cc_by_nc_nd = terms true true false
licenses public_domain = terms true false true
licenses other_license = terms false true true

-- A row of Media, the columns that the rules read.
pub record Media : Type 0 where
  pub kind : MediaKind
  pub url : Text
  pub alt_text : Option Text
  pub license : Option License
  pub credit : Option Text
  pub source_name : Option Text
  pub rights_note : Option Text
  pub rights_confirmed_at : Option ℕ

pub data RightsProblem : Type 0 where
  no_license no_credit say_who_permitted say_why_public describe_license confirm_first :
      RightsProblem

-- `value?.trim()` as a test.
abbrev pub says : Option Text → Bool
says none = false
says (some s) = not (is_empty (trim s))

abbrev pub note_problem : License → RightsProblem
note_problem permission = say_who_permitted
note_problem public_domain = say_why_public
note_problem _ = describe_license

abbrev pub unconfirmed : Option ℕ → Option RightsProblem
unconfirmed none = some confirm_first
unconfirmed (some at) = none

abbrev pub license_problem : Media → Option License → Option RightsProblem
license_problem m none = some no_license
license_problem m (some l) =
    if (licenses l).requires_credit && not (says m.credit) && not (says m.source_name)
    then some no_credit
    else if (licenses l).requires_note && not (says m.rights_note)
    then some (note_problem l)
    else unconfirmed m.rights_confirmed_at

unfoldable pub rights_problem : Media → Option RightsProblem
rights_problem m = license_problem m m.license

abbrev no_problem : Option RightsProblem → Bool
no_problem none = true
no_problem (some p) = false

unfoldable pub is_rights_complete : Media → Bool
is_rights_complete m = no_problem (rights_problem m)

abbrev download_of : Option License → Bool
download_of none = false
download_of (some l) = (licenses l).allows_download

unfoldable pub allows_download : Option License → Bool
allows_download license = download_of license
