-- ===== src/Lib.antt =====
-- A model of the study notebook for exam questions: a program that captures questions of finished
-- papers from a phone, reads their fields, checks that each record is complete, stores it, plans
-- its review and analyses mistakes.
--
-- Parts, and how they work together. A page is captured in a session (packages/capture/session.py:
-- Capture, with its state machine in Capture/Session): over ADB (packages/capture/adb.py:
-- Capture/Adb), from a worker thread of the desktop's controller
-- (apps/desktop/capture_controller.py: Desktop/Controller), or on the phone, which uploads frames
-- (packages/capture/lan_server.py and lan_auth.py: Capture/Lan). Recognised pages are classified
-- (packages/ocr/page_classify.py: Ocr) and grouped into questions (apps/desktop/pipeline.py: Ocr).
-- The fields of a question become a `Question` (packages/core/models.py: Core/Question), whose
-- choice answers come from recognised text (packages/core/answers.py: Core/Answers). The integrity
-- checks (packages/core/integrity.py and packages/parser/completeness.py: Core/Integrity) decide
-- between `verified` and `needs_review`, and the repository (packages/core/repository.py and
-- database.py: Core/Repository) applies them on each upsert, under a paper identifier made by
-- packages/core/ids.py (Core/Ids). The review planner (packages/review/scheduler.py: Review), the
-- analysis (packages/analysis: Analysis) and the language model's service (packages/ai: Ai) work
-- on stored questions; they keep what they add in `ai_analysis`, apart from the official fields.
-- Updates of the program itself are read and downloaded by packages/stability/update.py
-- (Stability). Results of the language model are kept in caches (packages/ai/cache.py: Ai/Cache).
-- Mistakes are exchanged as packages (packages/mistake_package/codec.py:
-- MistakePackage). Json is the value type of that dictionary and of checkpoints. Common holds what
-- the modules share, Examples the theorems at concrete inputs.
--
-- Correspondence. A class is a record with the class's fields, an enumeration a data type, and
-- each operation a function with the name of the source's. A method that mutates returns the new
-- value beside its result; an exception is `none` or a constructor of a result type. The clock,
-- fresh identifiers and what Python's libraries compute (`str()` of a JSON value that is no
-- string, `json.loads`, ISO dates, `Path.expanduser`, `urlparse`, SHA-256) are arguments. The
-- language model's adapter is an argument too, and so are a device's screen and input, the
-- caller's action provider and the digests of uploads. The file system that a
-- session is saved in and that uploads are written to is an argument, and may fail; the tables of a
-- cache do not. The adapter takes the parts that a prompt
-- is rendered from, without the statistics that the service computes from them.
--
-- Representation. A text that the program walks is its list of code points; case folding covers
-- ASCII, the full-width forms and the Kelvin sign. Confidences are in millionths, with the bound
-- 1_000_000 for 1 and the threshold 800_000 for 0.80. Dates are day numbers, instants counts of
-- microseconds. Risk scores are in hundredths and costs in billionths of a dollar, where the
-- source adds floats. A JSON float is its whole part and the digits behind the point, without NaN
-- and infinities. A stored payload is the record itself, and reading it runs the validators again.
-- A table is a dictionary; rows that tie in an ordering stay in the order of insertion.
--
-- Loops are structural recursion on the lists they walk, and the capture loop on the rounds that
-- `max_frames` leaves, so no fuel is needed. Threads are a step relation: a step is what happens
-- between two reads or writes of what they share; the capture service calls back on the worker
-- thread.
--
-- Not modelled: windows and command line (apps/desktop), the Android application, transports (ADB,
-- sockets, SQLite's engine), image processing, OCR engines, archives and file formats, prompts and
-- adapters of language models. The OCR field parser and the paper builder are left
-- out, too.
pub mod Common
pub mod Json
pub mod Core
pub mod Review
pub mod Analysis
pub mod Capture
pub mod Ai
pub mod Examples
pub mod Stability
pub mod MistakePackage
pub mod Desktop
pub mod Ocr
