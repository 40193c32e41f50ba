-- ===== src/Names/Tests.antt =====
-- Tests of `skipelem`, among them the examples of its comment.
use fog_os.Prelude.{◌≡◌, refl, none, some, [], ◌∷◌}
use fog_os.Names.{skip_slashes, element, after_element, skipelem}
use fog_os.Names.Elements.{Taken, skipelem-Taken}

-- "///a//bb"
many_slashes :
    skipelem (47 ∷ 47 ∷ 47 ∷ b'a' ∷ 47 ∷ 47 ∷ b'b' ∷ b'b' ∷ []) ≡ some (b'a' ∷ [], b'b' ∷ b'b' ∷ [])
unfolding skipelem skip_slashes element after_element
many_slashes = refl

-- "////"
only_slashes : skipelem (47 ∷ 47 ∷ 47 ∷ 47 ∷ []) ≡ none
unfolding skipelem skip_slashes
only_slashes = refl

skipelem-Taken_example : Taken (47 ∷ b'a' ∷ 47 ∷ b'b' ∷ []) (skipelem (47 ∷ b'a' ∷ 47 ∷ b'b' ∷ []))
skipelem-Taken_example = skipelem-Taken (47 ∷ b'a' ∷ 47 ∷ b'b' ∷ [])
