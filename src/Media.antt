-- ===== src/Media.antt =====
-- The check of media URLs and media types (backend/bl_haos/health.py), with what it uses of Python's
-- ipaddress and urllib.parse.
pub mod Parts
pub mod Ip
pub mod Literal
pub mod Host
pub mod Url
