-- ===== src/Routes/Offers.antt =====
-- app/api/routes/offers.py, with the responses of app/schemas/offer.py.
pub mod Cleanup
pub mod View
pub mod Edit
pub mod Listing
