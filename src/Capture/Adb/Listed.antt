-- ===== src/Capture/Adb/Listed.antt =====
-- The printed device list is read back.
use dingzhen_notebook.Common.{
  ◌≡◌, refl, sym, ap, ◌∙◌, false, Option, none, some, List, [], ◌∷◌, ◌++◌, Text, text_eq, text_beq,
  ◌==◌, txt, All, is_empty,
}
use dingzhen_notebook.Common.Dict.{lookup, insert}
use dingzhen_notebook.Common.Strings.{strip, is_space, lower, starts_with}
use dingzhen_notebook.Common.Strings.Pieces.{keep_word, pieces, pieces_before}
use dingzhen_notebook.Capture.Lan.{split_at}
use dingzhen_notebook.Capture.Adb.Devices.{
  DeviceInfo, is_line_end, devices_header, attrs_of, device_of, device_from, device_words,
  parse_line, parse_lines, parse_devices_output, attr, attr_words, device_line, device_lines,
  print_devices,
}
use dingzhen_notebook.Capture.Adb.Words.{
  IsSolid, IsWord, IsValue, IsOneLine, pieces-spaced, spaced-IsOneLine, is_empty-spaced,
  strip-spaced,
}

-- A device as the list shows it: without display data, and its line is not the heading.
pub record IsShown (d : DeviceInfo) : Type 0 where
  pub serial_word : IsWord d.serial
  pub state_word : IsWord d.state
  pub one_state : (d.state == txt "no") ≡ false
  pub product_value : IsValue d.product
  pub model_value : IsValue d.model
  pub device_value : IsValue d.device
  pub transport_value : IsValue d.transport_id
  pub no_size : d.screen_size ≡ none
  pub no_density : d.density ≡ none
  pub no_heading : starts_with devices_header (lower (device_line d)) ≡ false

All-app : (s t : Text) → IsSolid s → IsSolid t → IsSolid (s ++ t)
All-app [] t h k = k
All-app (c ∷ s) t h k = (h.0, All-app s t h.1 k)

All-words : (a b : List Text) → All IsWord a → All IsWord b → All IsWord (a ++ b)
All-words [] b h k = k
All-words (w ∷ a) b h k = (h.0, All-words a b h.1 k)

attr-IsWord : (key : Text) (v : Option Text) → IsWord key → IsValue v → All IsWord (attr key v)
unfolding is_space
attr-IsWord [] v h e = absurd h
attr-IsWord (k ∷ key) none h e = tt
attr-IsWord (k ∷ key) (some []) h e = absurd e
attr-IsWord (k ∷ key) (some (c ∷ s)) h e = ((h.0, All-app key (b':' ∷ c ∷ s) h.1 (refl, e)), tt)

attr_words-IsWord : (d : DeviceInfo) → IsShown d → All IsWord (attr_words d)
unfolding attr_words is_space txt
attr_words-IsWord d h =
    All-words (attr (txt "product") d.product) _
      (attr-IsWord (txt "product") d.product solid_product h.product_value)
      (All-words (attr (txt "model") d.model) _
        (attr-IsWord (txt "model") d.model solid_model h.model_value)
        (All-words (attr (txt "device") d.device) _
          (attr-IsWord (txt "device") d.device solid_device h.device_value)
          (attr-IsWord (txt "transport_id") d.transport_id solid_transport h.transport_value)))
  where
    solid_product : IsWord (txt "product")
    solid_product = (refl, (refl, (refl, (refl, (refl, (refl, (refl, tt)))))))

    solid_model : IsWord (txt "model")
    solid_model = (refl, (refl, (refl, (refl, (refl, tt)))))

    solid_device : IsWord (txt "device")
    solid_device = (refl, (refl, (refl, (refl, (refl, (refl, tt))))))

    solid_transport : IsWord (txt "transport_id")
    solid_transport = (
      refl,
      (refl, (refl, (refl, (refl, (refl, (refl, (refl, (refl, (refl, (refl, (refl, tt))))))))))),
    )

-- The attributes of a device, by its values.
abbrev values : Option Text → Option Text → Option Text → Option Text → List Text
values product model device transport =
    attr (txt "product") product
    ++ (attr (txt "model") model
        ++ (attr (txt "device") device ++ attr (txt "transport_id") transport))

abbrev shown : Text → Text → Option Text → Option Text → Option Text → Option Text → DeviceInfo
shown serial state product model device transport = record {
  serial = serial;
  state = state;
  product = product;
  model = model;
  device = device;
  transport_id = transport;
  screen_size = none;
  density = none;
}

device_of-values :
    (serial state : Text) (product model device transport : Option Text)
    → IsValue product
    → IsValue model
    → IsValue device
    → IsValue transport
    → device_of serial state (values product model device transport)
      ≡ shown serial state product model device transport
unfolding device_of attrs_of split_at insert lookup txt text_beq
device_of-values serial state none none none none _ _ _ _ = refl
device_of-values serial state none none none (some (t ∷ ts)) _ _ _ _ = refl
device_of-values serial state none none (some (d ∷ ds)) none _ _ _ _ = refl
device_of-values serial state none none (some (d ∷ ds)) (some (t ∷ ts)) _ _ _ _ = refl
device_of-values serial state none (some (m ∷ ms)) none none _ _ _ _ = refl
device_of-values serial state none (some (m ∷ ms)) none (some (t ∷ ts)) _ _ _ _ = refl
device_of-values serial state none (some (m ∷ ms)) (some (d ∷ ds)) none _ _ _ _ = refl
device_of-values serial state none (some (m ∷ ms)) (some (d ∷ ds)) (some (t ∷ ts)) _ _ _ _ = refl
device_of-values serial state (some (p ∷ ps)) none none none _ _ _ _ = refl
device_of-values serial state (some (p ∷ ps)) none none (some (t ∷ ts)) _ _ _ _ = refl
device_of-values serial state (some (p ∷ ps)) none (some (d ∷ ds)) none _ _ _ _ = refl
device_of-values serial state (some (p ∷ ps)) none (some (d ∷ ds)) (some (t ∷ ts)) _ _ _ _ = refl
device_of-values serial state (some (p ∷ ps)) (some (m ∷ ms)) none none _ _ _ _ = refl
device_of-values serial state (some (p ∷ ps)) (some (m ∷ ms)) none (some (t ∷ ts)) _ _ _ _ = refl
device_of-values serial state (some (p ∷ ps)) (some (m ∷ ms)) (some (d ∷ ds)) none _ _ _ _ = refl
device_of-values serial state (some (p ∷ ps)) (some (m ∷ ms)) (some (d ∷ ds)) (some (t ∷ ts)) _ _ _
      _ =
    refl
device_of-values serial state (some []) model device transport h _ _ _ = absurd h
device_of-values serial state product (some []) device transport _ h _ _ = absurd h
device_of-values serial state product model (some []) transport _ _ h _ = absurd h
device_of-values serial state product model device (some []) _ _ _ h = absurd h

device_from-one_state :
    (serial state : Text) (words : List Text)
    → (state == txt "no") ≡ false
    → device_from serial state words ≡ device_of serial state words
unfolding device_from
device_from-one_state serial state [] h = refl
device_from-one_state serial state (w ∷ words) h = rw (device_from, h) refl

shown_same :
    (d : DeviceInfo)
    → d.screen_size ≡ none
    → d.density ≡ none
    → shown d.serial d.state d.product d.model d.device d.transport_id ≡ d
shown_same d size density = λ i. record d { screen_size = sym size i; density = sym density i }

device_of-attr_words : (d : DeviceInfo) → IsShown d → device_of d.serial d.state (attr_words d) ≡ d
unfolding attr_words
device_of-attr_words d h =
    device_of-values d.serial d.state d.product d.model d.device d.transport_id h.product_value
      h.model_value h.device_value h.transport_value
    ∙ shown_same d h.no_size h.no_density

parse_line-device_line : (d : DeviceInfo) → IsShown d → parse_line (device_line d) ≡ some d
unfolding parse_line device_line
parse_line-device_line d h =
    let ws = attr_words d in
    let hs : All IsWord (d.state ∷ ws) = (h.state_word, attr_words-IsWord d h) in
    let full = is_empty-spaced d.serial (d.state ∷ ws) h.serial_word in
    let cut = pieces-spaced d.serial (d.state ∷ ws) h.serial_word hs in
    rw (parse_line, full, h.no_heading)
      (ap device_words cut
        ∙ ap (λ x. some x)
            (device_from-one_state d.serial d.state ws h.one_state ∙ device_of-attr_words d h))

keep_word_full : (s : Text) (rest : List Text) → is_empty s ≡ false → keep_word s rest ≡ s ∷ rest
keep_word_full [] rest h = cc
keep_word_full (c ∷ s) rest h = refl

line_words : (d : DeviceInfo) → IsShown d → All IsWord (d.state ∷ attr_words d)
line_words d h = (h.state_word, attr_words-IsWord d h)

-- The first line of a list.
pieces-line :
    (d : DeviceInfo) (rest : Text)
    → IsShown d
    → pieces is_line_end [] (device_line d ++ 10 ∷ rest)
      ≡ device_line d ∷ pieces is_line_end [] rest
unfolding device_line is_line_end
pieces-line d rest h =
    pieces_before is_line_end [] (device_line d) 10 rest
      (spaced-IsOneLine d.serial (d.state ∷ attr_words d) h.serial_word (line_words d h)) refl
    ∙ keep_word_full (device_line d) (pieces is_line_end [] rest)
        (is_empty-spaced d.serial (d.state ∷ attr_words d) h.serial_word)

parse_stripped : (d : DeviceInfo) → IsShown d → parse_line (strip (device_line d)) ≡ some d
unfolding device_line
parse_stripped d h =
    ap parse_line (strip-spaced d.serial (d.state ∷ attr_words d) h.serial_word (line_words d h))
    ∙ parse_line-device_line d h

parse_lines-device_lines :
    (ds : List DeviceInfo)
    → All IsShown ds
    → parse_lines (pieces is_line_end [] (device_lines ds)) ≡ ds
unfolding device_lines parse_lines pieces
parse_lines-device_lines [] h = refl
parse_lines-device_lines (d ∷ ds) h =
    ap parse_lines (pieces-line d (device_lines ds) h.0)
    ∙ rw (parse_lines, parse_stripped d h.0) (ap (λ r. d ∷ r) (parse_lines-device_lines ds h.1))

-- The list of devices that the fake transport prints is read back as those devices, if each of them
-- is one that the list can show: words without white space, no display data, no state "no", and a
-- line that is not the heading.
pub parse_devices_output-print_devices :
    (ds : List DeviceInfo) → All IsShown ds → parse_devices_output (print_devices ds) ≡ ds
unfolding parse_devices_output print_devices parse_lines parse_line strip lower starts_with is_space
    is_line_end pieces txt
parse_devices_output-print_devices ds h =
    ap parse_lines (
      pieces_before is_line_end [] (txt "List of devices attached") 10 (device_lines ds) heading
        refl)
    ∙ parse_lines-device_lines ds h
  where
    heading : IsOneLine (txt "List of devices attached")
    heading = (
      refl,
      (
        refl,
        (
          refl,
          (
            refl,
            (
              refl,
              (
                refl,
                (
                  refl,
                  (
                    refl,
                    (
                      refl,
                      (
                        refl,
                        (
                          refl,
                          (
                            refl,
                            (
                              refl,
                              (
                                refl,
                                (
                                  refl,
                                  (
                                    refl,
                                    (
                                      refl,
                                      (refl, (refl, (refl, (refl, (refl, (refl, (refl, tt))))))),
                                    ),
                                  ),
                                ),
                              ),
                            ),
                          ),
                        ),
                      ),
                    ),
                  ),
                ),
              ),
            ),
          ),
        ),
      ),
    )
