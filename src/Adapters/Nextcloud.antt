-- ===== src/Adapters/Nextcloud.antt =====
-- adapters/nextcloud.py: the search for files. The module Files reads the payload; the functions of
-- urllib, base64 and datetime that it calls are parameters.
pub mod Files
pub mod Search
pub mod Found
pub mod Results
