-- ===== src/TextToPdf/Characters.antt =====
-- The classes of characters of text_to_pdf.rs.
use document_studio.Base.{
  ℕ, Bool, false, ◌||◌, ◌==◌, within, Option, none, some, if◌then◌else◌, ◌%◌,
}

pub data AdmittedScript : Type 0 where
  latin_common devanagari telugu : AdmittedScript

unfoldable pub is_rejected_control : ℕ → Bool
is_rejected_control code = within 0 8 code || (within 0xb 0x1f code || within 0x7f 0x9f code)

unfoldable pub is_bidi_control : ℕ → Bool
is_bidi_control code =
    code == 0x61c
    || (code == 0x200e
        || (code == 0x200f || (within 0x202a 0x202e code || within 0x2066 0x2069 code)))

-- `code & 0xffff` is the remainder by 2 ^ 16.
unfoldable pub is_noncharacter : ℕ → Bool
is_noncharacter code =
    within 0xfdd0 0xfdef code || (code % 0x10000 == 0xfffe || code % 0x10000 == 0xffff)

unfoldable pub admitted_script : ℕ → Option AdmittedScript
admitted_script code =
    if code == 0x2028 || code == 0x2029
    then none
    else if within 0x900 0x97f code || within 0xa8e0 0xa8ff code
    then some devanagari
    else if within 0xc00 0xc7f code
    then some telugu
    else if within 0x20 0x7e code
        || (within 0xa0 0x24f code
            || (within 0x300 0x36f code
                || (within 0x2000 0x206f code || within 0x20a0 0x21ff code)))
    then some latin_common
    else none

unfoldable pub font_index : AdmittedScript → ℕ
font_index latin_common = 0
font_index devanagari = 1
font_index telugu = 2

unfoldable pub is_combining_or_default_ignorable : ℕ → Bool
is_combining_or_default_ignorable code =
    within 0x300 0x36f code
    || (within 0x900 0x903 code
        || (within 0x93a 0x94f code
            || (within 0x951 0x957 code
                || (within 0x962 0x963 code
                    || (within 0xc00 0xc04 code
                        || (within 0xc3c 0xc56 code
                            || (within 0xc62 0xc63 code || within 0x200c 0x200d code)))))))

unfoldable pub is_shaping_base : ℕ → AdmittedScript → Bool
is_shaping_base code devanagari =
    within 0x915 0x939 code || (within 0x958 0x95f code || within 0x978 0x97f code)
is_shaping_base code telugu = within 0xc15 0xc39 code || within 0xc58 0xc5a code
is_shaping_base code latin_common = false

-- `matches!(code, 0x200c | 0x200d)`.
unfoldable pub is_joiner : ℕ → Bool
is_joiner code = code == 0x200c || code == 0x200d

unfoldable pub joiner_cluster_member : ℕ → AdmittedScript → Bool
joiner_cluster_member code script =
    is_shaping_base code script || (is_joiner code || is_combining_or_default_ignorable code)

-- `char::is_whitespace`: the characters with Unicode's property White_Space.
unfoldable pub is_whitespace : ℕ → Bool
is_whitespace c =
    within 9 13 c
    || (c == 0x20
        || (c == 0x85
            || (c == 0xa0
                || (c == 0x1680
                    || (within 0x2000 0x200a c
                        || (c == 0x2028
                            || (c == 0x2029 || (c == 0x202f || (c == 0x205f || c == 0x3000)))))))))
