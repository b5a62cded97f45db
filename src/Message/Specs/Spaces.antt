-- ===== src/Message/Specs/Spaces.antt =====
-- Lists of texts as one text with spaces between them.
use Prim.Native.Char.{code}
use Prim.Native.String.{◌++◌ as ◌++ₛ◌}
use Prim.Native.String.append
use idpy_oidc.Base.{◌≡◌, refl, ap, ◌∙◌, false, some, List, [], ◌∷◌, String, All, eqb}
use idpy_oidc.Message.{str, Value, atom, list, Format}
use idpy_oidc.Message.Specs.{
  split_spaces, join_spaces, texts, texts_of, sp_sep_list_serializer, sp_sep_list_deserializer,
}

-- A text without a space.
abbrev pub IsWord : String → Type 0
IsWord String.[] = Unit
IsWord (String.◌∷◌ c s) = (eqb (code c) b' ' ≡ false) × IsWord s

split_word : (s : String) → IsWord s → split_spaces s ≡ s ∷ []
unfolding split_spaces
split_word String.[] h = refl
split_word (String.◌∷◌ c s) (n, h) = rw (n, split_word s h) refl

split_word_before :
    (s t : String) → IsWord s → split_spaces (s ++ₛ (" " ++ₛ t)) ≡ s ∷ split_spaces t
unfolding split_spaces
split_word_before String.[] t h =
    rw (append.nil (" " ++ₛ t), append.cons " " "" t, append.nil t) refl
split_word_before (String.◌∷◌ c s) t (n, h) =
    rw (append.cons c s (" " ++ₛ t), n, split_word_before s t h) refl

split-join :
    (s : String) (ss : List String)
    → All IsWord (s ∷ ss)
    → split_spaces (join_spaces (s ∷ ss)) ≡ s ∷ ss
unfolding join_spaces
split-join s [] (h, hs) = split_word s h
split-join s (t ∷ ts) (h, hs) =
    split_word_before s (join_spaces (t ∷ ts)) h ∙ ap (λ l. s ∷ l) (split-join t ts hs)

texts_of-texts : (ss : List String) → texts_of (texts ss) ≡ some ss
texts_of-texts [] = refl
texts_of-texts (s ∷ ss) = rw (texts_of-texts ss) refl

-- A list of words, such as scopes, that has one at least is read back from the text that the serializer
-- makes of it.
pub deserializer-serializer :
    (f f' : Format) (s : String) (ss : List String)
    → All IsWord (s ∷ ss)
    → (v : Value) × (sp_sep_list_serializer f (list (texts (s ∷ ss))) ≡ some v)
      × (sp_sep_list_deserializer f' v ≡ some (list (texts (s ∷ ss))))
unfolding sp_sep_list_serializer sp_sep_list_deserializer
deserializer-serializer f f' s ss h =
    (atom (str (join_spaces (s ∷ ss))), rw (texts_of-texts ss) refl, rw (split-join s ss h) refl)
