-- ===== src/Version/Tests.antt =====
-- Concrete versions, to which the theorems about version.py are applied.

use stem.Base.{◌≡◌, ◌⊎◌, ◌↔◌, ◌||◌, refl, true, false, none, some, codes}
use stem.Version.{Version, compare_with, compare_numbers, text_gt, eq, gt, ge}
use stem.Base.{[], ◌∷◌, ok}
use stem.Base.{digits_value}
use stem.Version.Parse.{init, commit_of, chomp, number, extras, patch_level, status_tag}
use stem.Version.Laws.{SameVersion, version_trichotomy, gt_trans, ge-gt}

abbrev alpha : Version
alpha = record { major = 0; minor = 4; micro = 5; patch = some 1; status = some (codes "alpha") }

abbrev beta : Version
beta = record { major = 0; minor = 4; micro = 5; patch = some 1; status = some (codes "beta") }

abbrev plain : Version
plain = record { major = 0; minor = 4; micro = 6; patch = none; status = none }

beta-alpha : gt beta alpha ≡ true
unfolding compare_with compare_numbers text_gt
beta-alpha = refl

plain-beta : gt plain beta ≡ true
unfolding compare_with compare_numbers
plain-beta = refl

gt_trans_example : gt plain alpha ≡ true
gt_trans_example = gt_trans plain beta alpha plain-beta beta-alpha

version_trichotomy_example :
    (((gt beta alpha ≡ true) × (eq beta alpha ≡ false) × (gt alpha beta ≡ false))
      ⊎ (((gt beta alpha ≡ false) × (eq beta alpha ≡ true) × (gt alpha beta ≡ false))
          ⊎ ((gt beta alpha ≡ false) × (eq beta alpha ≡ false) × (gt alpha beta ≡ true))))
    × ((eq beta alpha ≡ true) ↔ SameVersion beta alpha)
version_trichotomy_example = version_trichotomy beta alpha

ge-gt_example : ge plain alpha ≡ (gt plain alpha || eq plain alpha)
ge-gt_example = ge-gt plain alpha

parsed :
    init (codes "0.2.2.23-alpha (git-7dcd105be34a4f44) (x)")
    ≡ ok (record {
      version_str = codes "0.2.2.23-alpha (git-7dcd105be34a4f44) (x)";
      version = record {
        major = 0;
        minor = 2;
        micro = 2;
        patch = some 23;
        status = some (codes "alpha");
      };
      all_extra = codes "git-7dcd105be34a4f44" ∷ codes "x" ∷ [];
      extra = some (codes "git-7dcd105be34a4f44");
      git_commit = some (codes "7dcd105be34a4f44");
    })
unfolding init chomp number extras patch_level status_tag digits_value commit_of
parsed = refl
