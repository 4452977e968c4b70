-- ===== src/Context/Sorted.antt =====
-- The order of a listing: keys by `strcmp`, as `ObjectContentComp` of src/Context.cpp says, and a
-- sort by it, which stands for `qsort` in the runs of the model.
use qing_stor_c_sdk.Prelude.{Bool, true, false, List, [], ◌∷◌, Bytes, ltb, ◌==◌, if◌then◌else◌}
use qing_stor_c_sdk.Context.Extract.{ListedObject}
use qing_stor_c_sdk.Context.Listing.{Sort}

-- `strcmp(a, b) <= 0`
abbrev pub strcmp_le : Bytes → Bytes → Bool
strcmp_le [] bs = true
strcmp_le (a ∷ as') [] = false
strcmp_le (a ∷ as') (b ∷ bs) = let rest = strcmp_le as' bs in if a == b then rest else ltb a b

-- `ObjectContentComp(a, b) <= 0`
abbrev pub object_le : ListedObject → ListedObject → Bool
object_le a b = strcmp_le a.key b.key

insert : ListedObject → List ListedObject → List ListedObject
insert x [] = x ∷ []
insert x (y ∷ ys) = let rest = insert x ys in if object_le x y then x ∷ y ∷ ys else y ∷ rest

-- A sort to run a listing with.
unfoldable pub insertion_sort : Sort
unfolding insert
insertion_sort [] = []
insertion_sort (x ∷ xs) = insert x (insertion_sort xs)
