-- ===== src/Turbo/Sizes.antt =====
-- The grouping of a list against the files of each size.
use backhouse_dff.Base.{
  ℕ, suc, ◌≡◌, refl, ap, ◌∙◌, Bool, false, some, List, [], ◌∷◌, arith, nat_key,
}
use backhouse_dff.Base.Dict.{lookup}
use backhouse_dff.Base.Buckets.{
  bucket, append_all, values_at, bucket-append_all, at_least_two, bucket-keep_two,
  append_all-Distinct,
}
use backhouse_dff.Turbo.Grouping.{
  Entry, FoundFile, Groups, size_of, entry_of, stops, group_loop, keep_groups, group_list,
}

-- The entries of the files of a size.
abbrev pub of_size : ℕ → List FoundFile → List Entry
of_size k files = values_at size_of entry_of k files

group_loop-append_all :
    (cancelled : ℕ → Bool) (gi : ℕ) (files : List FoundFile) (groups : Groups)
    → ((i : ℕ) → cancelled i ≡ false)
    → group_loop cancelled gi files groups ≡ some (append_all size_of entry_of files groups)
unfolding group_loop append_all
group_loop-append_all cancelled gi [] groups h = refl
group_loop-append_all cancelled gi (file ∷ files) groups h =
    let go : stops cancelled gi ≡ false = ground (arith, h gi) in
    rw (go, group_loop) (group_loop-append_all cancelled (suc gi) files _ h)

-- Unless the scan is cancelled, a size's group is all files of that size in their order, where
-- there are at least two.
pub group_list-of_size :
    (cancelled : ℕ → Bool) (files : List FoundFile) (r : ℕ)
    → ((i : ℕ) → cancelled i ≡ false)
    → bucket r (group_list cancelled files) ≡ at_least_two (of_size r files)
unfolding group_list lookup
group_list-of_size cancelled files r h =
    ap (λ o. bucket r (keep_groups o)) (group_loop-append_all cancelled 0 files [] h)
    ∙ bucket-keep_two (append_all size_of entry_of files []) r
        (append_all-Distinct size_of entry_of files [] tt)
    ∙ ap at_least_two (bucket-append_all size_of entry_of files [] r)
