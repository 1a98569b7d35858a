-- ===== src/Capture/Adb/Devices.antt =====
-- The device list of ADB (packages/capture/adb.py): `parse_devices_output`, and the list that
-- `FakeAdbTransport` prints.
use dingzhen_notebook.Common.{
  ℕ, Bool, ◌&&◌, ◌||◌, Option, none, some, List, [], ◌∷◌, ◌++◌, Text, text_eq, ◌==◌, txt, nat_beq,
  leb, if◌then◌else◌, is_empty,
}
use dingzhen_notebook.Common.Dict.{Dict, lookup, insert}
use dingzhen_notebook.Common.Strings.{strip, is_space, lower, starts_with}
use dingzhen_notebook.Common.Strings.Pieces.{pieces}
use dingzhen_notebook.Capture.Lan.{split_at}

pub record DeviceInfo : Type 0 where
  pub serial : Text
  pub state : Text
  pub product : Option Text
  pub model : Option Text
  pub device : Option Text
  pub transport_id : Option Text
  pub screen_size : Option (ℕ × ℕ)
  pub density : Option ℕ

-- What ends a line for `splitlines`.
unfoldable pub is_line_end : ℕ → Bool
is_line_end c =
    (leb 10 c && leb c 13)
    || (leb 28 c && leb c 30)
    || nat_beq c 0x85
    || nat_beq c 0x2028
    || nat_beq c 0x2029

abbrev pub devices_header : Text
devices_header = txt "list of devices attached"

-- `attrs[key] = value` of each field with a colon
unfoldable pub attrs_of : List Text → Dict Text Text → Dict Text Text
unfolding split_at insert
attrs_of [] attrs = attrs
attrs_of (word ∷ words) attrs = elim (split_at b':' word) [
  | none ↦ attrs_of words attrs
  | some (key, value) ↦ attrs_of words (insert key value attrs)
]

unfoldable pub device_of : Text → Text → List Text → DeviceInfo
unfolding attrs_of lookup txt
device_of serial state words =
    let attrs = attrs_of words [] in
    record {
      serial = serial;
      state = state;
      product = lookup (txt "product") attrs;
      model = lookup (txt "model") attrs;
      device = lookup (txt "device") attrs;
      transport_id = lookup (txt "transport_id") attrs;
      screen_size = none;
      density = none;
    }

-- The two words of "no permissions" are one state.
unfoldable pub device_from : Text → Text → List Text → DeviceInfo
unfolding device_of lower txt
device_from serial state [] = device_of serial state []
device_from serial state (word ∷ words) =
    if (state == txt "no") && (lower word == txt "permissions")
    then device_of serial (txt "no permissions") words
    else device_of serial state (word ∷ words)

abbrev pub device_words : List Text → Option DeviceInfo
device_words (serial ∷ state ∷ words) = some (device_from serial state words)
device_words _ = none

-- One line, stripped; `none` is a line that is passed over.
unfoldable pub parse_line : Text → Option DeviceInfo
unfolding device_from pieces is_space lower starts_with txt
parse_line line =
    if is_empty line || starts_with devices_header (lower line)
    then none
    else device_words (pieces is_space [] line)

unfoldable pub parse_lines : List Text → List DeviceInfo
unfolding parse_line strip
parse_lines [] = []
parse_lines (line ∷ lines) =
    let rest = parse_lines lines in
    elim (parse_line (strip line)) [ none ↦ rest | some d ↦ d ∷ rest ]

-- `parse_devices_output`, of the decoded text
unfoldable pub parse_devices_output : Text → List DeviceInfo
unfolding parse_lines pieces is_line_end
parse_devices_output text = parse_lines (pieces is_line_end [] text)

-- `f"{key}:{value}"`, if there is a value
abbrev pub attr : Text → Option Text → List Text
attr key none = []
attr key (some []) = []
attr key (some (c ∷ s)) = (key ++ b':' ∷ c ∷ s) ∷ []

unfoldable pub attr_words : DeviceInfo → List Text
unfolding txt
attr_words d =
    attr (txt "product") d.product
    ++ (attr (txt "model") d.model
        ++ (attr (txt "device") d.device ++ attr (txt "transport_id") d.transport_id))

-- `" ".join(words)`
unfoldable pub spaced : Text → List Text → Text
spaced word [] = word
spaced word (next ∷ words) = word ++ b' ' ∷ spaced next words

unfoldable pub device_line : DeviceInfo → Text
unfolding spaced attr_words
device_line d = spaced d.serial (d.state ∷ attr_words d)

unfoldable pub device_lines : List DeviceInfo → Text
unfolding device_line
device_lines [] = []
device_lines (d ∷ ds) = device_line d ++ 10 ∷ device_lines ds

-- `FakeAdbTransport.run(("devices", "-l"))`
unfoldable pub print_devices : List DeviceInfo → Text
unfolding device_lines txt
print_devices ds = txt "List of devices attached" ++ 10 ∷ device_lines ds
